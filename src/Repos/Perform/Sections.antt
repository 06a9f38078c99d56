-- ===== src/Repos/Perform/Sections.antt =====
-- The sections of the repository file after `perform`.
use subscription_manager.Base.{
  ◌≡◌, refl, ◌∙◌, String, Bool, true, false, not, ◌&&◌, ◌||◌, Option, none, some, List, [], ◌∷◌,
  ◌++◌, any, All, contains, ◌==◌, string_eq, arith, Bool-cases, inl, inr,
}
use subscription_manager.Base.Result.{ok}
use subscription_manager.Repos.Repo.{Repo, _clean_id, new_repo}
use subscription_manager.Repos.Update.{update_repo}
use subscription_manager.Repos.Update.Laws.{update_repo-ids}
use subscription_manager.Repos.YumFile.{IniParser, IniLaws, is_default, section, on_disk}
use subscription_manager.Repos.YumFile.Laws.{
  in_file, new_repo-id, update-sections, add-sections, write-sections,
}
use subscription_manager.Repos.Perform.{
  RepoActionReport, Command, Working, Disk, server_section, merge_content, place_content, is_yum,
  place_loop, drop_section, delete_loop, valid_ids, create, create_files, start, complete, perform,
}

-- the identities of the contents for yum
abbrev pub yum_id : List Repo → String → Bool
yum_id contents t = any (λ c. is_yum c && t == c.id) contents

-- an identity that has no characters to clean, and that the parser takes for a section
abbrev IsName : String → Type 0
IsName t = (_clean_id t ≡ t) × (is_default t ≡ false)

abbrev Named : List Repo → Type 0
Named contents = All (λ c. IsName c.id) contents

module _ {F : Type 0} (ini : IniParser F) where
  -- which sections the two files have afterwards
  abbrev pub Sections : List Repo → (before after : Disk F) → Type 0
  Sections contents before after =
      (t : String)
      → (in_file ini t (on_disk ini after.repo_disk) ≡ (
          yum_id contents t
          || (in_file ini t (on_disk ini before.repo_disk)
              && (contains (valid_ids contents) t
                  || not (in_file ini t (on_disk ini before.server_disk))))))
        × (in_file ini t (on_disk ini after.server_disk) ≡ (
            yum_id contents t
            || (in_file ini t (on_disk ini before.server_disk) && contains (valid_ids contents) t)))

module _ {F : Type 0} (ini : IniParser F) (laws : IniLaws ini) where
  -- Both files have gained one section, or none.
  abbrev Gained : (String → Bool) → Working F → Working F → Type 0
  Gained ids w v =
      (t : String)
      → (in_file ini t v.repo_file ≡ (ids t || in_file ini t w.repo_file))
        × (in_file ini t v.server_file ≡ (ids t || in_file ini t w.server_file))

  server_section-ok :
      (cont : Repo) (f : F)
      → IsName cont.id
      → (r : Repo) × (g : F) × (server_section ini cont f ≡ ok (r, g))
        × (r.id ≡ cont.id)
        × ((t : String) → in_file ini t g ≡ (t == cont.id || in_file ini t f))
  unfolding server_section section
  server_section-ok cont f (clean, named) = elim (Bool-cases (in_file ini cont.id f)) [
    | inl there ↦ (
      new_repo cont.id (ini.options cont.id f),
      f,
      rw (server_section, section, there) refl,
      new_repo-id cont.id _ ∙ clean,
      λ t. ground (arith, there),
    )
    | inr missing ↦
        let (g, e, added) = add-sections ini laws cont f missing named in
        (cont, g, rw (server_section, section, missing, e) refl, refl, added)
  ]

  merge_content-Gained :
      (cmd : Command) (cont existing server : Repo) (w : Working F)
      → existing.id ≡ cont.id
      → server.id ≡ cont.id
      → in_file ini cont.id w.repo_file ≡ true
      → in_file ini cont.id w.server_file ≡ true
      → Gained (λ t. false) w (merge_content ini cmd cont existing server w)
  unfolding merge_content
  merge_content-Gained cmd cont existing server w e s h k t =
      let done = update_repo cmd.overrides cmd.written existing cont server in
      let (same, same') = update_repo-ids cmd.overrides cmd.written cont existing server in
      (
        update-sections ini laws done.old_repo t w.repo_file (rw (same, e) h),
        update-sections ini laws done.server t w.server_file (rw (same', s) k),
      )

  place_content-Gained :
      (cmd : Command) (cont : Repo) (w : Working F)
      → IsName cont.id
      → (v : Working F) × (place_content ini cmd cont w ≡ ok v) × Gained (λ t. t == cont.id) w v
  unfolding place_content section
  place_content-Gained cmd cont w (clean, named) =
      let (server, server_file, e, id, gained) =
        server_section-ok cont w.server_file (clean, named) in
      elim (Bool-cases (in_file ini cont.id w.repo_file)) [
        | inl there ↦
            let existing = new_repo cont.id (ini.options cont.id w.repo_file) in
            let w' : Working F = record w { server_file = server_file } in
            let kept =
              merge_content-Gained cmd cont existing server w' (new_repo-id cont.id _ ∙ clean) id
                there (ground (arith, gained cont.id)) in
            (
              merge_content ini cmd cont existing server w',
              rw (place_content, e, section, there) refl,
              λ t. (ground (arith, (kept t).0, there), ground (arith, (kept t).1, gained t)),
            )
        | inr missing ↦
            let (g, e', added) = add-sections ini laws cont w.repo_file missing named in
            let v : Working F = record {
              repo_file = g;
              server_file = server_file;
              report = record w.report { repo_added = w.report.repo_added ++ (cont ∷ []) };
            } in
            (v, rw (place_content, e, section, missing, e') refl, λ t. (added t, gained t))
      ]

  place_loop-Gained :
      (cmd : Command) (contents : List Repo) (w : Working F)
      → Named contents
      → (v : Working F) × (place_loop ini cmd contents w ≡ ok v) × Gained (yum_id contents) w v
  unfolding place_loop
  place_loop-Gained cmd [] w h = (w, refl, λ t. (refl, refl))
  place_loop-Gained cmd (cont ∷ contents) w h = elim (Bool-cases (is_yum cont)) [
    | inl yum ↦
        let (v, e, g) = place_content-Gained cmd cont w h.0 in
        let (u, e', g') = place_loop-Gained cmd contents v h.1 in
        (
          u,
          rw (place_loop, yum, e, e') refl,
          λ t. (ground (arith, g t, g' t, yum), ground (arith, g t, g' t, yum)),
        )
    | inr other ↦
        let (u, e', g') = place_loop-Gained cmd contents w h.1 in
        (
          u,
          rw (place_loop, other, e') refl,
          λ t. (ground (arith, g' t, other), ground (arith, g' t, other)),
        )
  ]

  -- what the deletion of sections that are not valid leaves
  delete_loop-sections :
      (valid ss : List String) (w : Working F) (t : String)
      → let v = delete_loop ini valid ss w in
        let stays = contains valid t || not (contains ss t) in
        (in_file ini t v.repo_file ≡ (in_file ini t w.repo_file && stays))
        × (in_file ini t v.server_file ≡ (in_file ini t w.server_file && stays))
  unfolding delete_loop
  delete_loop-sections valid [] w t = (ground arith, ground arith)
  delete_loop-sections valid (s ∷ ss) w t = elim (Bool-cases (contains valid s)) [
    | inl good ↦
        let (repo, server) = delete_loop-sections valid ss w t in
        rw (delete_loop, good) (ground (arith, repo, good), ground (arith, server, good))
    | inr bad ↦
        let (repo, server) = delete_loop-sections valid ss (drop_section ini s w) t in
        rw (delete_loop, bad)
          (
            ground (arith, repo, laws.removed s t w.repo_file),
            ground (arith, server, laws.removed s t w.server_file),
          )
  ]

  yum_id-valid :
      (contents : List Repo) (t : String)
      → yum_id contents t ≡ true
      → contains (valid_ids contents) t ≡ true
  yum_id-valid [] t h = cc
  yum_id-valid (cont ∷ contents) t h = ground (arith, yum_id-valid contents t)

  perform-complete :
      (cmd : Command) (contents : List Repo) (disk : Disk F) (v : Working F)
      → cmd.manage_repos ≡ true
      → place_loop ini cmd contents (start ini (create_files ini disk)) ≡ ok v
      → perform ini cmd contents disk ≡ complete ini cmd contents (create_files ini disk) v
  unfolding perform
  perform-complete cmd contents disk v managed e = ground (arith, managed, e)

  create-sections :
      (disk : Option F) (t : String)
      → in_file ini t (on_disk ini (create ini disk)) ≡ in_file ini t (on_disk ini disk)
  create-sections none t = refl
  create-sections (some f) t = refl

  complete-Sections :
      (cmd : Command) (contents : List Repo) (disk : Disk F) (v : Working F)
      → Gained (yum_id contents) (start ini (create_files ini disk)) v
      → let done = complete ini cmd contents (create_files ini disk) v in
        (report : RepoActionReport) × (done.0 ≡ ok (some report))
        × Sections ini contents disk (done.2)
  unfolding complete
  complete-Sections cmd contents disk v gained =
      let w = delete_loop ini (valid_ids contents) (ini.sections v.server_file) v in
      (
        w.report,
        refl,
        λ t.
            let (repo, server) =
              delete_loop-sections (valid_ids contents) (ini.sections v.server_file) v t in
            (
              write-sections ini laws (create ini disk.repo_disk) w.repo_file t
                  ∙ ground (
                    arith,
                    repo,
                    gained t,
                    yum_id-valid contents t,
                    create-sections disk.repo_disk t,
                    create-sections disk.server_disk t,
                  ),
              write-sections ini laws (create ini disk.server_disk) w.server_file t
                  ∙ ground (
                    arith,
                    server,
                    gained t,
                    yum_id-valid contents t,
                    create-sections disk.server_disk t,
                  ),
            ),
      )

  -- With a parser that keeps the laws of sections, `perform` on managed repositories whose contents have clean identities, none of them
  -- "default" in any case, returns a report, and on the disk the file has a section of each content for yum; besides these it keeps a section that it had
  -- only if it is the identity of some content, or was missing in the file of the server's values. That
  -- file has a section of each content for yum, and those of its own that are identities of contents.
  pub perform-Sections :
      (cmd : Command) (contents : List Repo) (disk : Disk F)
      → cmd.manage_repos ≡ true
      → Named contents
      → let after : Disk F = (perform ini cmd contents disk).2 in
        (report : RepoActionReport) × ((perform ini cmd contents disk).0 ≡ ok (some report))
        × Sections ini contents disk after
  perform-Sections cmd contents disk managed clean =
      let (v, e, gained) =
        place_loop-Gained cmd contents (start ini (create_files ini disk)) clean in
      rw (perform-complete cmd contents disk v managed e)
        (complete-Sections cmd contents disk v gained)
