-- ===== src/Cogs/Moderation/Hierarchy.antt =====
-- src/cogs/moderation.rs, `can_act_on`: the order of two members.
use benny_rs.Base.{ℕ, ◌≡◌, refl, ◌∙◌, sym, false, Option, none, some, List, ◌==◌, arith}
use benny_rs.Base.Equality.{nat_eq}
use benny_rs.Base.Dict.{lookup}
use benny_rs.Utils.Roles.{Role, top_role}
use benny_rs.Utils.Roles.Highest.{rank_le_total, top_role-exists}
use benny_rs.Cogs.Moderation.{Guild, above_or_equal, compare_tops, compare_members, can_act_on}

tops_strict :
    (p q : Role)
    → compare_tops (some p) (some q) ≡ none
    → compare_tops (some q) (some p) ≡ some above_or_equal
tops_strict p q h = ground (arith, rank_le_total p q)

-- Between two members who do not own the server the highest roles decide.
tops_decide :
    (g : Guild) (member : ℕ → Option (List ℕ)) (guild_id a b : ℕ) (roles_a roles_b : List ℕ)
    (p q : Role)
    → member a ≡ some roles_a
    → member b ≡ some roles_b
    → (a == g.owner_id) ≡ false
    → (b == g.owner_id) ≡ false
    → top_role roles_a g.roles guild_id ≡ some p
    → top_role roles_b g.roles guild_id ≡ some q
    → can_act_on (some g) member guild_id a b ≡ compare_tops (some p) (some q)
unfolding can_act_on
tops_decide g member guild_id a b roles_a roles_b p q ma mb na nb tp tq =
    rw (can_act_on, nb, na, mb, ma, compare_members, tp, tq) refl

-- Of two members who do not own the server, in a guild whose role of everyone is known, if the
-- first may act on the second then the second is refused to act on the first.
pub can_act_on_strict :
    (g : Guild) (member : ℕ → Option (List ℕ)) (guild_id a b : ℕ) (roles_a roles_b : List ℕ)
    (everyone : Role)
    → lookup guild_id g.roles ≡ some everyone
    → member a ≡ some roles_a
    → member b ≡ some roles_b
    → (a == g.owner_id) ≡ false
    → (b == g.owner_id) ≡ false
    → can_act_on (some g) member guild_id a b ≡ none
    → can_act_on (some g) member guild_id b a ≡ some above_or_equal
can_act_on_strict g member guild_id a b roles_a roles_b everyone e ma mb na nb h =
    let (p, tp) = top_role-exists roles_a g.roles guild_id everyone e in
    let (q, tq) = top_role-exists roles_b g.roles guild_id everyone e in
    let there = tops_decide g member guild_id a b roles_a roles_b p q ma mb na nb tp tq in
    let back = tops_decide g member guild_id b a roles_b roles_a q p mb ma nb na tq tp in
    back ∙ tops_strict p q (sym there ∙ h)
