-- ===== src/ProductIds/Database.antt =====
-- `ProductDatabase` of src/subscription_manager/productid.py: the repositories of each product.
use subscription_manager.Base.{String, Option, none, some, List, [], ◌∷◌, ◌++◌, string_eq}
use subscription_manager.Base.Dict.{Dict, lookup, insert, erase}

abbrev pub Content : Type 0
Content = Dict String (List String)

-- an entry of the file: the old form is one repository
pub data RepoData : Type 0 where
  one_repo : String → RepoData
  repo_list : List String → RepoData

-- The database's file: no JSON object, or its entries. How json.dump and json.load encode the entries is left
-- out.
pub data File : Type 0 where
  corrupt : File
  stored : Dict String RepoData → File

unfoldable pub find_repos : String → Content → Option (List String)
find_repos product content = lookup product content

abbrev pub repos_or_empty : Option (List String) → List String
repos_or_empty none = []
repos_or_empty (some repos) = repos

-- `self.content[product].append(repo)`, where a missing list is a new one
unfoldable pub add : String → String → Content → Content
add product repo content =
    insert product (repos_or_empty (lookup product content) ++ (repo ∷ [])) content

unfoldable pub delete : String → Content → Content
delete product content = erase product content

unfoldable pub populate_content : Dict String RepoData → Content → Content
unfolding add
populate_content [] content = content
populate_content ((product, one_repo repo) ∷ db_dict) content =
    populate_content db_dict (add product repo content)
populate_content ((product, repo_list repos) ∷ db_dict) content =
    populate_content db_dict (insert product repos content)

unfoldable pub read : File → Content → Content
unfolding populate_content
read corrupt content = content
read (stored db_dict) content = populate_content db_dict content

abbrev entries : Content → Dict String RepoData
entries [] = []
entries ((product, repos) ∷ content) = (product, repo_list repos) ∷ entries content

unfoldable pub write : Content → File
write content = stored (entries content)

-- `create`: a missing file becomes an empty database
unfoldable pub create : Option File → File
unfolding write
create none = write []
create (some file) = file
