-- ===== src/Coal/Tests.antt =====
-- Runs of coal/manager.go on a collection in memory, with the theorems at these runs.
use fire.Base.{
  ℕ_eq, String_eq, ltb, ◌==◌, if◌then◌else◌, ℤ_eq, message, invalid, Result, ok, err, M, ℕ, suc,
  String, ◌≡◌, refl, inr, Bool, true, false, none, some, List, [], ◌∷◌, arith,
}
use fire.Coal.Model.{Base, b, number, set_tag, get_tag}
use fire.Coal.Tags.{get-set_tag}
use fire.Coal.Driver.{Driver, obs}
use fire.Coal.Transactions.{Session, done, failed, attempt, retry, transact}
use fire.Coal.Retries.{Ends, retry_ends, AllOrNothing, transact_lem}
use fire.Coal.Memory.{memory, memory-IsDriver}
use fire.Coal.Manager.Defs.{Context, Doc}
use fire.Coal.Manager.Mutations.{insert_if_missing, update_first}
use fire.Coal.Manager.Writes.{Updated, update_first-Updated, Placed, insert_if_missing-Placed}

-- A document with a number, which must not be 0.
abbrev Post : Type 0
Post = Base × ℕ

abbrev doc : Doc Post
doc = record {
  base = λ d. d.0;
  with_base = λ base d. (base, d.1);
  validate = λ d. if d.1 == 0 then some (invalid "Number") else none;
}

abbrev drv : Driver Post
drv = memory Post

abbrev posts : List Post
posts = (b 1, 5) ∷ (b 2, 6) ∷ []

abbrev alone : Context
alone = record { transaction = none }

abbrev plain : List String → Result (List String)
plain sort = ok sort

abbrev is_six : Post → Bool
is_six d = d.1 == 6

abbrev is_seven : Post → Bool
is_seven d = d.1 == 7

abbrev reset : Post → Post
reset d = (d.0, 0)

update_first-Updated_example :
    Updated drv
      (memory-IsDriver Post)
      doc
      is_six
      reset
      9
      posts
      (obs drv (update_first drv doc plain alone (ok is_six) (ok reset) [] false [] 9 posts))
update_first-Updated_example =
    update_first-Updated drv (memory-IsDriver Post) doc plain alone is_six reset 9 posts

-- The update to an invalid document is refused after it was stored.
stored_invalid :
    update_first drv doc plain alone (ok is_six) (ok reset) [] false [] 9 posts
    ≡ ((b 1, 5) ∷ (b 2, 0) ∷ [], err (invalid "Number"))
unfolding update_first
stored_invalid = refl

insert_if_missing-Placed_example :
    Placed drv
      (memory-IsDriver Post)
      doc
      is_seven
      (λ d. d)
      (b 0, 7)
      9
      3
      posts
      (obs drv (insert_if_missing drv doc alone (ok is_seven) (λ d. d) (b 0, 7) false [] 9 3 posts))
insert_if_missing-Placed_example =
    insert_if_missing-Placed drv (memory-IsDriver Post) doc alone is_seven (λ d. d) (b 0, 7) 9 3
      posts

inserted :
    insert_if_missing drv doc alone (ok is_seven) (λ d. d) (b 0, 7) false [] 9 3 posts
    ≡ ((b 1, 5) ∷ (b 2, 6) ∷ (b 3, 7) ∷ [], ok true)
unfolding insert_if_missing
inserted = refl

get-set_tag_example :
    (m : Base) × (set_tag (b 1) "seen" (number 5) 20 ≡ ok m)
    × (get_tag 10 m "seen" ≡ ok (number 5))
    × ((other : String) → ("seen" == other) ≡ false → get_tag 10 m other ≡ get_tag 10 (b 1) other)
get-set_tag_example = get-set_tag (b 1) "seen" (number 5) 10 20 refl (inr (omega arith))

-- A session in which every call fails for a passing reason, and every commit is lost.
abbrev session : Session
session = record {
  start = λ n. none;
  commit = λ n. failed false true true (message "lost");
  alive = λ n. true;
  is_transient = λ e. true;
}

abbrev busy : ℕ → M ℕ ℕ
busy n s = if ltb n 3 then (suc s, err (message "conflict")) else (suc s, ok n)

six_attempts : retry 6 session 40 busy alone ≡ some (6, (40, err (message "lost")))
unfolding retry attempt
six_attempts = refl

retry_ends_example : Ends 6 (retry 6 session 40 busy alone)
retry_ends_example = retry_ends 6 session 40 busy alone

transact_example :
    AllOrNothing false 40 (busy 2 40) (transact 1 false alone none done none (λ ctx. busy 2) 40)
transact_example = transact_lem false 40 1 alone none done none (λ ctx. busy 2) refl
