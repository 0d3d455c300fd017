-- ===== src/Cogs/Moderation/Store/Numbers.antt =====
-- src/cogs/moderation.rs, `create_case` and `record_timed`: the numbers that cases get.
use benny_rs.Base.{ℕ, ◌+◌, ◌<◌, ◌≡◌, refl, ap, true, Option, none, some, if◌then◌else◌, arith}
use benny_rs.Base.Int.{ℤ}
use benny_rs.Base.Equality.{nat_eq, pair_eq, pair_beq}
use benny_rs.Base.Dict.{lookup, insert, lookup-insert}
use benny_rs.Base.Tables.{insert_new_absent, highest, highest_upper, lookup_above}
use benny_rs.Base.Text.{Text}
use benny_rs.Cogs.Moderation.Store.{Key, Case, Store, stored, create_case}

abbrev pub new_case :
    (now : ℕ) (action_type : Text) (target_id moderator_id : ℕ) (reason : Text)
    (expires_at : Option ℤ)
    → Case
new_case now action_type target_id moderator_id reason expires_at = record {
  action_type = action_type;
  target_id = target_id;
  moderator_id = moderator_id;
  reason = reason;
  created_at = now;
  active = true;
  expires_at = expires_at;
}

abbrev pub next_number : Store → (guild_id : ℕ) → ℕ
next_number s g = highest g s.cases + 1

pub next_number_absent : (s : Store) (g : ℕ) → lookup (g, next_number s g) s.cases ≡ none
next_number_absent s g = lookup_above g (next_number s g) s.cases (omega arith)

-- The primary key of a new case is free, so its insertion goes through.
pub create_case_ok :
    (now : ℕ) (s : Store) (g : ℕ) (kind : Text) (target moderator : ℕ) (reason : Text)
    (expires : Option ℤ)
    → create_case true now s g kind target moderator reason expires ≡ (
      some (next_number s g),
      record s {
        cases =
            insert (g, next_number s g) (new_case now kind target moderator reason expires) s.cases;
      },
    )
unfolding create_case
create_case_ok now s g kind target moderator reason expires = ap (stored s (next_number s g)) (
    insert_new_absent (g, next_number s g) (new_case now kind target moderator reason expires)
      s.cases (next_number_absent s g))

-- A case under a number above all numbers of its guild, with no other case changed.
abbrev pub AddsCase : Case → (guild_id : ℕ) → Store → Option ℕ × Store → Type 0
AddsCase case g s r =
    (n : ℕ) × (r.0 ≡ some n)
    × ((m : ℕ) (c : Case) → lookup (g, m) s.cases ≡ some c → m < n)
    × ((j : Key) → lookup j r.1.cases ≡ (if pair_beq (g, n) j then some case else lookup j s.cases))
    × (r.1.timed ≡ s.timed)

-- Where the transaction goes through, a new case gets a number above those of all cases of its
-- guild, it is found under that number as it was given, and no other case and no timed row
-- changes.
pub create_case-AddsCase :
    (now : ℕ) (s : Store) (g : ℕ) (kind : Text) (target moderator : ℕ) (reason : Text)
    (expires : Option ℤ)
    → AddsCase
        (new_case now kind target moderator reason expires)
        g
        s
        (create_case true now s g kind target moderator reason expires)
create_case-AddsCase now s g kind target moderator reason expires =
    let n = next_number s g in
    let row = new_case now kind target moderator reason expires in
    rw (create_case_ok now s g kind target moderator reason expires) (
      n,
      refl,
      λ m c l. omega (arith, highest_upper g m c s.cases l),
      λ j. lookup-insert (g, n) j row s.cases,
      refl,
    )
