-- ===== src/Cogs/Tags/Coherence.antt =====
-- src/cogs/tags.rs: the table of tags and the cache before it.
use benny_rs.Base.{
  ℕ, ◌+◌, ◌≡◌, refl, sym, ap, ◌∙◌, Bool, true, false, not, Option, none, some, List, [], ◌∷◌, ◌==◌,
  if◌then◌else◌, arith, Bool-cases, inl, inr, ==_iff,
}
use benny_rs.Base.Equality.{nat_eq, pair_eq, list_eq, pair_beq, pair_beq_iff, list_beq_iff}
use benny_rs.Base.Dict.{
  lookup, insert, contains_key, lookup-insert, lookup-remove, Distinct, insert-Distinct,
}
use benny_rs.Base.Tables.{
  update_where, updated, kept, lookup-update_where, lookup-delete_where, update_where-Distinct,
  delete_where-Distinct,
}
use benny_rs.Base.Text.{Text, trim}
use benny_rs.Tagscript.Blocks.Effects.{TagOutput}
use benny_rs.Cogs.Tags.{
  TagKey, Tag, Tags, Reply, deleted, authorized, unless, is_tag, check_content, check_name,
  update_cached, edit_tag, delete_tag, insert_tag, load_rows, on_ready, tag_create, tag_edit,
  tag_delete,
}
use benny_rs.Cogs.Tags.Invoke.{
  Effect, has_content, count_use, after_cooldown, cooldown_of, apply_output, invoke_tag,
}

-- The rows have distinct keys, and the cache finds what the table finds.
abbrev pub IsCoherent : Tags → Type 0
IsCoherent st = Distinct st.rows × ((k : TagKey) → lookup k st.cache ≡ lookup k st.rows)

is_tag-pair_beq : (g : ℕ) (n : Text) (k : TagKey) (t : Tag) → is_tag g n k t ≡ pair_beq (g, n) k
is_tag-pair_beq g n (h, m) t =
    ground (arith, ==_iff g h, ==_iff h g, list_beq_iff n m, list_beq_iff m n)

update_at :
    (g : ℕ) (n : Text) (f : Tag → Tag) (k : TagKey) (cache : List (TagKey × Tag)) (o p : Option Tag)
    → lookup (g, n) cache ≡ o
    → lookup k cache ≡ p
    → lookup k (elim o [ none ↦ cache | some t ↦ insert (g, n) (f t) cache ])
      ≡ updated (is_tag g n) f k p
update_at g n f k cache none none e e' = e'
update_at g n f k cache none (some u) e e' =
    let other : pair_beq (g, n) k ≡ false = ground (arith, pair_beq_iff (g, n) k) in
    e' ∙ rw (updated, is_tag-pair_beq g n k u, other) refl
update_at g n f k cache (some t) none e e' =
    let other : pair_beq (g, n) k ≡ false = ground (arith, pair_beq_iff (g, n) k) in
    lookup-insert (g, n) k (f t) cache ∙ rw other e'
update_at g n f k cache (some t) (some u) e e' = elim (Bool-cases (pair_beq (g, n) k)) [
  | inl y ↦
      let same : t ≡ u = ground (arith, pair_beq_iff (g, n) k) in
      lookup-insert (g, n) k (f t) cache
      ∙ rw (updated, is_tag-pair_beq g n k u, y) (ap (λ v. some (f v)) same)
  | inr y ↦ lookup-insert (g, n) k (f t) cache ∙ rw (updated, is_tag-pair_beq g n k u, y) e'
]

change-IsCoherent :
    (st : Tags) (g : ℕ) (n : Text) (f : Tag → Tag)
    → IsCoherent st
    → IsCoherent (record st {
      rows = update_where (is_tag g n) f st.rows;
      cache = update_cached (g, n) f st.cache;
    })
change-IsCoherent st g n f (d, c) = (
  update_where-Distinct (is_tag g n) f st.rows d,
  λ k.
      update_at g n f k st.cache (lookup (g, n) st.cache) (lookup k st.cache) refl refl
      ∙ ap (updated (is_tag g n) f k) (c k)
      ∙ sym (lookup-update_where (is_tag g n) f k st.rows),
)

kept_tag :
    (g : ℕ) (n : Text) (k : TagKey) (o : Option Tag)
    → (if pair_beq (g, n) k then none else o) ≡ kept (is_tag g n) k o
kept_tag g n k none = ground arith
kept_tag g n k (some t) = rw (kept, is_tag-pair_beq g n k t) refl

delete_tag-IsCoherent :
    (st : Tags) (g : ℕ) (n : Text) → IsCoherent st → IsCoherent (delete_tag true st g n)
unfolding delete_tag
delete_tag-IsCoherent st g n (d, c) = (
  delete_where-Distinct (is_tag g n) st.rows d,
  λ k.
      lookup-remove (g, n) k st.cache
      ∙ ap (λ o. if pair_beq (g, n) k then none else o) (c k)
      ∙ kept_tag g n k (lookup k st.rows)
      ∙ sym (lookup-delete_where (is_tag g n) k st.rows d),
)

insert_tag-IsCoherent :
    (ok : Bool) (now : ℕ) (st : Tags) (g owner : ℕ) (n content : Text)
    → IsCoherent st
    → IsCoherent (insert_tag ok now st g owner n content).0
unfolding insert_tag
insert_tag-IsCoherent ok now st g owner n content (d, c) =
    let t : Tag = record { content = content; owner_id = owner; uses = 0; created_at = now } in
    elim (Bool-cases (not ok)) [
      | inl e ↦ rw e (d, c)
      | inr e ↦ elim (Bool-cases (contains_key (g, n) st.rows)) [
        | inl y ↦ rw (e, y) (d, c)
        | inr y ↦
            rw (e, y)
              (
                insert-Distinct (g, n) t st.rows d,
                λ k.
                    lookup-insert (g, n) k t st.cache
                    ∙ ap (λ o. if pair_beq (g, n) k then some t else o) (c k)
                    ∙ sym (lookup-insert (g, n) k t st.rows),
              )
      ]
    ]

unless-IsCoherent :
    (o : Option Reply) (st : Tags) (rest : Tags × Reply)
    → IsCoherent st
    → IsCoherent rest.0
    → IsCoherent (unless o st rest).0
unless-IsCoherent none st rest c c' = c'
unless-IsCoherent (some r) st rest c c' = c

after_cooldown-IsCoherent :
    (st : Tags) (g : ℕ) (n : Text) (output : TagOutput) (p : Option ℕ × List (Text × ℕ))
    → IsCoherent st
    → IsCoherent (after_cooldown true st g n output p).1
unfolding count_use
after_cooldown-IsCoherent st g n output (some remaining, cooldowns) c = c
after_cooldown-IsCoherent st g n output (none, cooldowns) c =
    change-IsCoherent (record st { cooldowns = cooldowns }) g n
      (λ t. record t { uses = t.uses + 1 }) c

apply_output-IsCoherent :
    (now stamp : ℕ) (st : Tags) (g : ℕ) (n : Text) (output : TagOutput)
    → IsCoherent st
    → IsCoherent (apply_output true now stamp st g n output).1
unfolding apply_output
apply_output-IsCoherent now stamp st g n output c = elim (Bool-cases output.stopped) [
  | inl e ↦ elim (Bool-cases (has_content output.content)) [
    | inl h ↦ rw (e, h) c
    | inr h ↦ rw (e, h) c
  ]
  | inr e ↦
      rw e
        (after_cooldown-IsCoherent st g n output (cooldown_of now stamp st g n output.cooldown) c)
]

invoke_tag-IsCoherent :
    (run : Text → ℕ → TagOutput) (now stamp : ℕ) (st : Tags) (g : ℕ) (n : Text)
    → IsCoherent st
    → IsCoherent (invoke_tag run true now stamp st g n).1
unfolding invoke_tag
invoke_tag-IsCoherent run now stamp st g n c = invoked (lookup (g, n) st.cache)
  where
    invoked :
        (o : Option Tag)
        → IsCoherent
            (elim o as (λ _. List Effect × Tags) [
              | none ↦ ([], st)
              | some t ↦ apply_output true now stamp st g n (run t.content t.uses)
            ]).1
    invoked none = c
    invoked (some t) = apply_output-IsCoherent now stamp st g n (run t.content t.uses) c

-- The rows that are loaded come before what was cached.
abbrev loaded : Option Tag → Option Tag → Option Tag
loaded none o = o
loaded (some t) o = some t

loaded_self : (o : Option Tag) → loaded o o ≡ o
loaded_self none = refl
loaded_self (some t) = refl

lookup-load_rows :
    (k : TagKey) (rows cache : List (TagKey × Tag))
    → Distinct rows
    → lookup k (load_rows rows cache) ≡ loaded (lookup k rows) (lookup k cache)
lookup-load_rows k [] cache d = refl
lookup-load_rows k ((j, t) ∷ rows) cache (absent, d) =
    let rest = lookup-load_rows k rows (insert j t cache) d in
    let step = lookup-insert j k t cache in
    elim (Bool-cases (pair_beq j k)) [
      | inl y ↦
          let same : j ≡ k = (pair_beq_iff j k).0 y in
          let gone : lookup k rows ≡ none = ap (λ i. lookup i rows) (sym same) ∙ absent in
          rest ∙ rw (step, y, gone) refl
      | inr n ↦ rest ∙ rw (step, n) refl
    ]

on_ready-IsCoherent : (ok : Bool) (st : Tags) → IsCoherent st → IsCoherent (on_ready ok st)
unfolding on_ready
on_ready-IsCoherent false st c = c
on_ready-IsCoherent true st (d, c) = (
  d,
  λ k.
      lookup-load_rows k st.rows st.cache d
      ∙ ap (loaded (lookup k st.rows)) (c k)
      ∙ loaded_self (lookup k st.rows),
)

-- A refusal behind another test.
blocked :
    (o p : Option Reply) (st : Tags) (rest : Tags × Reply)
    → (r : Reply) × (p ≡ some r)
    → (unless o st (unless p st rest)).0 ≡ st
blocked (some q) p st rest h = refl
blocked none (some q) st rest h = refl
blocked none none st rest (r, e) = ground arith

-- ---- any steps ----

pub data Step : Type 0 where
  ready : (read_ok : Bool) → Step
  create : (write_ok : Bool) (now guild author : ℕ) (name content : Text) → Step
  edit : (manages : Bool) (guild author : ℕ) (name content : Text) → Step
  delete : (manages : Bool) (guild author : ℕ) (name : Text) → Step
  invoke : (now stamp guild : ℕ) (name : Text) → Step

module _ (lowercase : Text → Text) (is_alphanumeric : ℕ → Bool) (run : Text → ℕ → TagOutput) where
  abbrev pub perform : Tags → Step → Tags
  perform st (ready ok) = on_ready ok st
  perform st (create ok now g author n content) =
      (tag_create lowercase is_alphanumeric ok now st g author n content).0
  perform st (edit manages g author n content) =
      (tag_edit lowercase is_alphanumeric true manages st g author n content).0
  perform st (delete manages g author n) =
      (tag_delete lowercase is_alphanumeric true manages st g author n).0
  perform st (invoke now stamp g n) = (invoke_tag run true now stamp st g n).1

  abbrev pub perform_all : Tags → List Step → Tags
  perform_all st [] = st
  perform_all st (s ∷ ss) = perform_all (perform st s) ss

  perform-IsCoherent : (st : Tags) (s : Step) → IsCoherent st → IsCoherent (perform st s)
  unfolding tag_create tag_edit tag_delete edit_tag
  perform-IsCoherent st (ready ok) c = on_ready-IsCoherent ok st c
  perform-IsCoherent st (create ok now g author n content) c =
      let name = lowercase n in
      unless-IsCoherent (check_name lowercase is_alphanumeric name) st _ c (
        unless-IsCoherent (check_content (trim content)) st _ c
          (insert_tag-IsCoherent ok now st g author name (trim content) c))
  perform-IsCoherent st (edit manages g author n content) c =
      let name = lowercase n in
      unless-IsCoherent (check_content (trim content)) st _ c (
        unless-IsCoherent (authorized author manages (lookup (g, name) st.cache)) st _ c
          (change-IsCoherent st g name (λ t. record t { content = trim content }) c))
  perform-IsCoherent st (delete manages g author n) c =
      let name = lowercase (trim n) in
      unless-IsCoherent (authorized author manages (lookup (g, name) st.cache)) st _ c
        (delete_tag-IsCoherent st g name c)
  perform-IsCoherent st (invoke now stamp g n) c = invoke_tag-IsCoherent run now stamp st g n c

  -- Over any sequence of ready events, creations, edits, deletions and invocations of tags, where
  -- every edit, deletion and count of a use reaches the table, the rows keep distinct keys and the
  -- cache finds what the table finds, if they did at the start.
  pub perform_all-IsCoherent :
      (ss : List Step) (st : Tags) → IsCoherent st → IsCoherent (perform_all st ss)
  perform_all-IsCoherent [] st c = c
  perform_all-IsCoherent (s ∷ ss) st c =
      perform_all-IsCoherent ss (perform st s) (perform-IsCoherent st s c)

module _ (lowercase : Text → Text) (is_alphanumeric : ℕ → Bool) where
  -- Where the author neither owns the tag nor may manage, an edit and a deletion change nothing.
  pub stranger_unchanged :
      (ok : Bool) (st : Tags) (g author : ℕ) (n content : Text) (t u : Tag)
      → lookup (g, lowercase n) st.cache ≡ some t
      → (t.owner_id == author) ≡ false
      → lookup (g, lowercase (trim n)) st.cache ≡ some u
      → (u.owner_id == author) ≡ false
      → ((tag_edit lowercase is_alphanumeric ok false st g author n content).0 ≡ st)
        × ((tag_delete lowercase is_alphanumeric ok false st g author n).0 ≡ st)
  unfolding tag_edit tag_delete
  stranger_unchanged ok st g author n content t u l o l' o' =
      let a : authorized author false (lookup (g, lowercase n) st.cache) ≡ some Reply.not_yours =
        rw (l, authorized, o) refl in
      let b : authorized author false (lookup (g, lowercase (trim n)) st.cache)
          ≡ some Reply.not_yours =
        rw (l', authorized, o') refl in
      (
        blocked (check_content (trim content)) _ st _ (_, a),
        ap
            (λ r.
              (unless r st
                (delete_tag ok st g (lowercase (trim n)), deleted (lowercase (trim n)))).0)
            b,
      )
