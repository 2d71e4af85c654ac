-- ===== src/Tests/Config.antt =====
-- The loader on a small parsed file, and the report of decoys on two assets.
use zee.Prelude.{String, true, ◌≡◌, refl, Option, none, some, List, [], ◌∷◌, All, contains, has_nul}
use zee.Prelude.Json
use zee.Prelude.Json.{Fields, str, arr, obj, nil, cons, field, end, texts}
use zee.Errors.{ok, ◌>>=◌}
use zee.Config.{Config, load_file}
use zee.Config.Validity.{IsValid, load_file-IsValid}
use zee.Config.Decoys.{Duplicate, check_decoy_paths, duplicate_decoys, owned}
use zee.Config.Decoys.Exclusive.{any_clash, duplicate_decoys_iff}
use zee.Tests.Data.{armed, server}

abbrev small_file : Fields
small_file =
    field "assets"
      (arr (
        cons
          (obj (
            field "id" (str "server") (
              field "type" (str "server") (
                field "decoy_paths" (arr (cons (str "/srv/plan.docx") nil))
                  (field "cut_method" (str "egress") end)))))
          nil))
      end

abbrev small_config : Config
small_config = record { assets = server ∷ []; dry_run = true; privsep_socket = none }

small_loaded : load_file (some (obj small_file)) ≡ ok small_config
unfolding load_file ◌>>=◌ Json.get_or Json.get texts contains Json.truth
small_loaded = refl

load_file-IsValid_example : All IsValid (server ∷ [])
load_file-IsValid_example = load_file-IsValid small_file small_loaded

abbrev as_is : String → Option String
as_is s = some s

abbrev clash : List Duplicate
clash = record { path = "/srv/plan.docx"; first_asset = "laptop"; other_asset = "server" } ∷ []

armed-clash : duplicate_decoys as_is armed ≡ ok clash
unfolding duplicate_decoys check_decoy_paths ◌>>=◌ has_nul
armed-clash = refl

duplicate_decoys_iff_example : true ≡ any_clash (owned as_is armed.assets)
duplicate_decoys_iff_example = duplicate_decoys_iff as_is armed armed-clash
