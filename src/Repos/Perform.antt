-- ===== src/Repos/Perform.antt =====
-- `RepoUpdateActionCommand.perform` of src/subscription_manager/repolib.py, on a system whose only
-- repository file is redhat.repo of yum and dnf.
pub mod Contents
pub mod Sections
use subscription_manager.Base.{
  ◌+◌, ℕ, String, Bool, true, false, not, ◌&&◌, Option, none, some, List, [], ◌∷◌, ◌++◌, length,
  map, contains, Eq, ◌==◌, string_eq, if◌then◌else◌,
}
use subscription_manager.Base.Dict.{Dict}
use subscription_manager.Base.Result.{Result, ok, err}
use subscription_manager.Repos.Repo.{Repo}
use subscription_manager.Repos.Update.{Overrides, Updating, update_repo}
use subscription_manager.Repos.YumFile.{IniParser, add, update, section, on_disk, write}

pub record RepoActionReport : Type 0 where
  repo_updates : List Repo
  pub repo_added : List Repo
  repo_deleted : List String

unfoldable pub updates : RepoActionReport → ℕ
updates r = length r.repo_updates + length r.repo_added + length r.repo_deleted

-- redhat.repo, the file of the server's values, and the report
pub record Working (F : Type 0) : Type 0 where
  pub repo_file : F
  pub server_file : F
  pub report : RepoActionReport

-- The command: whether repositories are managed and overrides supported, the overrides, and those that
-- the command wrote last.
pub record Command : Type 0 where
  pub manage_repos : Bool
  pub override_supported : Bool
  pub overrides : Overrides
  pub written : Overrides

-- The two files on the disk, and the cache of the overrides that were written.
pub record Disk (F : Type 0) : Type 0 where
  pub repo_disk : Option F
  pub server_disk : Option F
  pub written_cache : Option Overrides

-- `cont.content_type in repo_file.CONTENT_TYPES`
abbrev pub is_yum : Repo → Bool
is_yum cont = elim cont.content_type [ none ↦ false | some t ↦ t == "yum" ]

abbrev pub valid_ids : List Repo → List String
valid_ids contents = map (λ c. c.id) contents

abbrev no_updates : RepoActionReport
no_updates = record { repo_updates = []; repo_added = []; repo_deleted = [] }

module _ {F : Type 0} (ini : IniParser F) where
  -- the section of the server's values, which is added if it is missing
  unfoldable pub server_section : Repo → F → Result (Repo × F)
  server_section cont server_file = elim (section ini cont.id server_file) [
    | some repo ↦ ok (repo, server_file)
    | none ↦ elim (add ini cont server_file) [ err e ↦ err e | ok f ↦ ok (cont, f) ]
  ]

  -- an existing section takes the new content over
  unfoldable pub merge_content : Command → Repo → Repo → Repo → Working F → Working F
  merge_content cmd cont existing server w =
      let done = update_repo cmd.overrides cmd.written existing cont server in
      record {
        repo_file = update ini done.old_repo w.repo_file;
        server_file = update ini done.server w.server_file;
        report = record w.report { repo_updates = w.report.repo_updates ++ (done.old_repo ∷ []) };
      }

  unfoldable pub place_content : Command → Repo → Working F → Result (Working F)
  unfolding server_section merge_content
  place_content cmd cont w = elim (server_section cont w.server_file) [
    | err e ↦ err e
    | ok (server, server_file) ↦ elim (section ini cont.id w.repo_file) [
      | some existing ↦
          ok (merge_content cmd cont existing server (record w { server_file = server_file }))
      | none ↦ elim (add ini cont w.repo_file) [
        | err e ↦ err e
        | ok f ↦ ok (record {
          repo_file = f;
          server_file = server_file;
          report = record w.report { repo_added = w.report.repo_added ++ (cont ∷ []) };
        })
      ]
    ]
  ]

  -- the loop over the contents
  unfoldable pub place_loop : Command → List Repo → Working F → Result (Working F)
  unfolding place_content
  place_loop cmd [] w = ok w
  place_loop cmd (cont ∷ contents) w =
      elim (if is_yum cont then place_content cmd cont w else ok w) [
        | err e ↦ err e
        | ok v ↦ place_loop cmd contents v
      ]

  unfoldable pub drop_section : String → Working F → Working F
  drop_section s w = record {
    repo_file = ini.remove_section s w.repo_file;
    server_file = ini.remove_section s w.server_file;
    report = record w.report { repo_deleted = w.report.repo_deleted ++ (s ∷ []) };
  }

  -- the loop over the sections of the file of the server's values
  unfoldable pub delete_loop : List String → List String → Working F → Working F
  unfolding drop_section
  delete_loop valid [] w = w
  delete_loop valid (s ∷ sections') w =
      delete_loop valid sections' (if contains valid s then w else drop_section s w)

  -- what `RepoFileBase.__init__` leaves on the disk: a file without sections where there was none
  abbrev pub create : Option F → Option F
  create none = some ini.empty
  create (some f) = some f

  abbrev pub create_files : Disk F → Disk F
  create_files disk = record disk {
    repo_disk = create disk.repo_disk;
    server_disk = create disk.server_disk;
  }

  abbrev pub start : Disk F → Working F
  start disk = record {
    repo_file = on_disk ini disk.repo_disk;
    server_file = on_disk ini disk.server_disk;
    report = no_updates;
  }

  abbrev finish_files : Working F → Disk F → Disk F
  finish_files w disk = record disk {
    repo_disk = write ini disk.repo_disk w.repo_file;
    server_disk = write ini disk.server_disk w.server_file;
  }

  -- the rest of `perform`, after the loop over the contents
  unfoldable pub complete :
      Command → List Repo → Disk F → Working F → Result (Option RepoActionReport) × Command × Disk F
  unfolding delete_loop
  complete cmd contents disk v =
      let w = delete_loop (valid_ids contents) (ini.sections v.server_file) v in
      (
        ok (some w.report),
        record cmd { written = if cmd.override_supported then cmd.overrides else cmd.written },
        record (finish_files w disk) {
          written_cache = if cmd.override_supported then some cmd.overrides else disk.written_cache;
        },
      )

  -- `perform` on the unique contents, in the order in which they come out of their set: the report, the
  -- command and the disk afterwards. An exception leaves the disk
  -- as it was when the files were created.
  unfoldable pub perform :
      Command → List Repo → Disk F → Result (Option RepoActionReport) × Command × Disk F
  unfolding place_loop complete
  perform cmd contents disk =
      if not cmd.manage_repos
      then (ok none, cmd, record { repo_disk = none; server_disk = none; written_cache = none })
      else elim (place_loop cmd contents (start (create_files disk))) [
        | err e ↦ (err e, cmd, create_files disk)
        | ok v ↦ complete cmd contents (create_files disk) v
      ]
