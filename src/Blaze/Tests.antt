-- ===== src/Blaze/Tests.antt =====
-- Runs of blaze/bucket.go on a collection in memory, with the theorems at these runs.
use fire.Base.{
  ℕ_eq, String_eq, ◌==◌, if◌then◌else◌, pos, ℤ_eq, All, message, Result, ok, err, ℕ, ◌+◌, ◌≤◌, ◌<◌,
  String, ◌≡◌, refl, ◌≢◌, Option, none, some, List, [], ◌∷◌, arith,
}
use fire.Base.{All, first, update_first as update_list}
use fire.Coal.Model.{b}
use fire.Coal.Driver.{meanwhile}
use fire.Coal.Memory.{memory, memory-IsDriver}
use fire.Coal.Manager.Defs.{Context, find_id}
use fire.Coal.Manager.Mutations.{insert_all, update, update_first, delete}
use fire.Coal.Transactions.{done}
use fire.Stick.Registry.Defs.{Registry, get, find_value}
use fire.Stick.Lists.Defs.{contains}
use fire.Blaze.Model.{State, uploading, uploaded, claimed, File, Link, ClaimKey, Binding, Formats}
use fire.Blaze.Files.{
  Bucket, Answers, missing, upload, transfer, claim_file, release_file, cleanup_file, cleanup_found,
  mark_leftover, remove, mark_deleting, file_in,
}
use fire.Blaze.Links.{view_key_at, plan, link_map, modify_links, refs_of}
use fire.Blaze.Migration.{Meets}
use fire.Blaze.History.{
  Call, uploads, claims, releases, downloads, modifies, cleans, migrates, step, run,
}
use fire.Blaze.Bound.{Owned, Foreign, run-Owned}
use fire.Blaze.Lives.{AreLegal, Lives, run-Evolves}
use fire.Blaze.Claims.{Claims}
use fire.Blaze.ViewKeys.{view_key_lem}
use fire.Blaze.Plans.{IsPlan, plan_lem, modify_links_same}

abbrev F : Type 0
F = File ℕ

abbrev formats : Formats ℕ
formats = record {
  parse_media_type = λ s. some s;
  is_empty = λ n. n == 0;
  same_handle = λ m n. m == n;
}

abbrev avatar : Binding
avatar = record {
  name = "avatar";
  model = some "User";
  field = "Avatar";
  limit = pos 100;
  types = "image/png" ∷ [];
  file_name = "";
}

abbrev key : ClaimKey
key = record { file = 1; name = "me.png"; size = pos 7; type = "image/png" }

abbrev key_of_name : Binding → Result String
key_of_name x = ok x.name

abbrev bindings : Registry Binding
bindings = record {
  validator = λ v. none;
  indexes = record { key_of = key_of_name; values = ("avatar", avatar) ∷ [] } ∷ [];
  list = avatar ∷ [];
}

abbrev bucket : Bucket ℕ
bucket = record {
  formats = formats;
  verify = λ s. if s == "key" then ok key else err (message "invalid token");
  bindings = bindings;
  services = "disk" ∷ "cloud" ∷ [];
  uploader = "cloud" ∷ [];
  type_of_name = λ s. "";
}

abbrev outside : Context
outside = record { transaction = none }

abbrev within : Context
within = record { transaction = some 1 }

abbrev answers : Answers ℕ
answers = record {
  prepare = ok 9;
  upload = none;
  callback = ok (pos 7);
  lookup = ok (pos 7);
  download = none;
  seek = none;
  read = ok 1;
  close = none;
  issue = ok "key";
}

abbrev meets : Meets ℕ
meets = record {
  download = none;
  answers = answers;
  pick = 0;
  fresh = 2;
  at_download = 20;
  at_insert = 21;
  at_update = 22;
  at_swap = 23;
  start = none;
  commit = done;
}

-- Nobody interferes.
abbrev still : List F → List F
still s = s

abbrev file : State → String → Option ℕ → F
file s binding owner = record {
  base = b 1;
  state = s;
  updated = 12;
  name = "me.png";
  type = "image/png";
  size = pos 7;
  service = "disk";
  handle = 9;
  binding = binding;
  owner = owner;
}

-- The files of a life: uploaded, claimed, released, marked and removed.
abbrev life : List (Context × Call (List F) ℕ)
life =
    (outside, uploads still "me.png" "image/png" (pos 7) 0 answers 1 10 11)
    ∷ (within, claims "key" "avatar" 4 12)
    ∷ (within, releases 1 13)
    ∷ (outside, cleans still missing 1 14)
    ∷ (outside, cleans still missing 1 15)
    ∷ []

whole_life : run (memory F) bucket life [] ≡ []
unfolding run step upload transfer claim_file release_file cleanup_file cleanup_found mark_leftover
    remove insert_all update update_first delete find_id get find_value contains meanwhile
whole_life = refl

-- A slow upload whose file a cleanup has marked in the meantime is moved back to uploaded.
abbrev marks : List F → List F
marks s = update_list (file_in 1 uploading) mark_deleting s

slow_upload :
    first
      (λ f. f.base.doc_id == 1)
      (run
        (memory F)
        bucket
        ((outside, uploads marks "me.png" "image/png" (pos 7) 0 answers 1 10 11) ∷ [])
        [])
    ≡ some (record (file uploaded "" none) { updated = 11; service = "cloud" })
unfolding run step upload transfer insert_all update meanwhile
slow_upload = refl

life-AreLegal : AreLegal (memory F) (memory-IsDriver F) bucket life []
life-AreLegal = (((λ s. refl), tt), (tt, (tt, ((λ s. refl), ((λ s. refl), tt)))))

run-Evolves_example : Lives (memory F) (memory-IsDriver F) bucket life []
run-Evolves_example = run-Evolves (memory F) (memory-IsDriver F) bucket life [] life-AreLegal

-- Calls that leave the file of ID 1 with its owner.
abbrev foreign : List (Context × Call (List F) ℕ)
foreign =
    (outside, uploads still "b.png" "image/png" (pos 7) 0 answers 3 30 31)
    ∷ (within, claims "key" "avatar" 5 32)
    ∷ (within, releases 3 33)
    ∷ (outside, downloads none 1 34)
    ∷ (within, modifies [] [] "avatar" 5 (λ n. 35) (λ n. 36))
    ∷ (outside, cleans still missing 1 37)
    ∷ (outside, migrates still 1 1 meets)
    ∷ []

abbrev owned : List F
owned = file claimed "avatar" (some 4) ∷ []

owned-Owned : Owned 1 "avatar" 4 owned
owned-Owned = record { described = ((λ t. (refl, refl, refl)), tt); present = refl }

abbrev third : ℕ
third = 3

three : third ≢ 1
three = ground arith

abbrev second : ℕ
second = 2

two : second ≢ 1
two = ground arith

foreign-Foreign : All (λ c. Foreign (memory F) (memory-IsDriver F) bucket 1 "avatar" 4 c.1) foreign
foreign-Foreign =
    (((λ s k. k), three), (tt, (three, (tt, (tt, ((λ s k. k), (((λ s k. k), two), tt)))))))

run-Owned_example : Owned 1 "avatar" 4 (run (memory F) bucket foreign owned)
run-Owned_example =
    run-Owned (memory F) (memory-IsDriver F) bucket 1 "avatar" 4 foreign owned foreign-Foreign
      owned-Owned

abbrev waiting : List F
waiting = file uploaded "" none ∷ []

abbrev taken : F
taken = record (file claimed "avatar" (some 4)) { updated = 40 }

view_key_example :
    ((view_key_at 24 5 100).issued ≤ 100)
    × (100 + 12 < (view_key_at 24 5 100).expires)
    × (view_key_at 24 5 107 ≡ view_key_at 24 5 100)
view_key_example = view_key_lem 24 5 100 107 (omega arith) (omega arith) (omega arith)

abbrev link : String → String → ℕ → Link
link ref claim_key id = record {
  ref = ref;
  name = "";
  type = "";
  size = pos 0;
  claim_key = claim_key;
  view_key = "";
  file = id;
  file_name = "me.png";
  file_type = "image/png";
  file_size = pos 7;
}

abbrev old_links : List Link
old_links = link "a" "" 1 ∷ link "b" "" 2 ∷ []

abbrev new_links : List Link
new_links = link "b" "key" 2 ∷ link "c" "key" 0 ∷ []

plan_example :
    IsPlan
      (link_map 0 [] new_links)
      new_links
      old_links
      (plan (link_map 0 [] new_links) new_links old_links)
plan_example = plan_lem (link_map 0 [] new_links) new_links old_links

abbrev turned : List Link
turned = link "b" "" 2 ∷ link "a" "" 1 ∷ []

same_refs : (ref : String) → contains (refs_of turned) ref ≡ contains (refs_of old_links) ref
unfolding contains
same_refs ref = ground arith

modify_links_same_example :
    modify_links (memory F) bucket within turned old_links "avatar" 4 (λ n. 50) (λ n. 51) owned
    ≡ (owned, ok turned)
modify_links_same_example =
    modify_links_same (memory F) bucket within turned old_links "avatar" 4 (λ n. 50) (λ n. 51) owned
      refl refl same_refs (refl, (refl, tt))
