-- ===== src/Repos/Perform/Contents.antt =====
-- `perform` on the contents that the entitlements give.
use subscription_manager.Base.{
  ◌≡◌, String, Bool, true, false, All, not, ◌&&◌, ◌||◌, Option, some, List, [], ◌∷◌, map, contains,
  string_eq, arith,
}
use subscription_manager.Base.Result.{ok}
use subscription_manager.Repos.Repo.{Repo, _clean_id}
use subscription_manager.Repos.Update.{Overrides}
use subscription_manager.Repos.Content.{
  EntitlementSource, Settings, matching_content, get_all_content, get_unique_content,
}
use subscription_manager.Repos.Content.Cleaned.{Cleaned}
use subscription_manager.Repos.Content.Ids.{
  get_unique_content-All, get_unique_content-clean, get_unique_content-ids,
}
use subscription_manager.Repos.YumFile.{IniParser, IniLaws, is_default, on_disk}
use subscription_manager.Repos.YumFile.Laws.{in_file}
use subscription_manager.Repos.Perform.{RepoActionReport, Command, Disk, perform}
use subscription_manager.Repos.Perform.Sections.{yum_id, perform-Sections}

both_All :
    (P Q : Repo → Type 0) (repos : List Repo)
    → All P repos
    → All Q repos
    → All (λ r. P r × Q r) repos
both_All P Q [] h k = tt
both_All P Q (r ∷ repos) h k = ((h.0, k.0), both_All P Q repos h.1 k.1)

-- On managed repositories, with a parser that keeps the laws of sections, and where no cleaned label is
-- "default" in any case, `perform` on the unique contents of the entitlements returns a report. The
-- file on the disk then has a section of each of them that is of yum, and of its own sections those that
-- are the cleaned label of a matching content or were missing in the file of the server's values. A cleaned
-- label is the label with "-" in place of every character that is not an ASCII letter, a digit or one of "-_.:".
pub perform-contents :
    {F : Type 0} (ini : IniParser F) (laws : IniLaws ini) (cmd : Command) (conf : Settings)
    (verify : Bool) (overrides : Option Overrides) (release : Option String) (types : List String)
    (source : EntitlementSource) (disk : Disk F)
    → cmd.manage_repos ≡ true
    → All (λ c. is_default (_clean_id c.label) ≡ false) (matching_content types source)
    → let repos = get_unique_content (get_all_content conf verify overrides release types source) in
      let done = perform ini cmd repos disk in
      let cleaned = map (λ c. _clean_id c.label) (matching_content types source) in
      (report : RepoActionReport) × (done.0 ≡ ok (some report))
      × ((t : String)
          → in_file ini t (on_disk ini (done.2).repo_disk) ≡ (
              yum_id repos t
              || (in_file ini t (on_disk ini disk.repo_disk)
                  && (contains cleaned t || not (in_file ini t (on_disk ini disk.server_disk))))))
      × All (λ c. Cleaned c.label (_clean_id c.label)) (matching_content types source)
perform-contents ini laws cmd conf verify overrides release types source disk managed named =
    let (cleaned, distinct, spelled, allowed) =
      get_unique_content-ids conf verify overrides release types source in
    let repos = get_unique_content (get_all_content conf verify overrides release types source) in
    let names =
      both_All (λ r. _clean_id r.id ≡ r.id) (λ r. is_default r.id ≡ false) repos
        (get_unique_content-clean conf verify overrides release types source)
        (get_unique_content-All (λ t. is_default t ≡ false) conf verify overrides release types
          source named) in
    let (report, returned, sections) = perform-Sections ini laws cmd repos disk managed names in
    (report, returned, λ t. ground (arith, (sections t).0, cleaned t), spelled)
