-- ===== src/Tagscript/Dispatch/Variables.antt =====
-- src/tagscript/blocks.rs, `process_block`: the assignment and the lookup of variables.
use benny_rs.Base.{◌≡◌, refl, ◌∙◌, false, Option, none, some, [], ◌∷◌, arith}
use benny_rs.Base.Equality.{nat_eq, list_eq, list_beq_iff}
use benny_rs.Base.Dict.{lookup, insert, lookup-insert}
use benny_rs.Base.Int.{ℤ}
use benny_rs.Base.Text.{Text, text, is, peek_is, all_chars, is_digit}
use benny_rs.Tagscript.Host.{Host}
use benny_rs.Tagscript.Context.{TagContext, get_var, string_index}
use benny_rs.Tagscript.Blocks.Verbatim.{reconstruct}
use benny_rs.Tagscript.Dispatch.{
  Machine, other, kinds, find_kind, set_var, digit_var, var_or_source, process_kind, process_block,
}

-- A name that no arm of the dispatch takes: not empty, not a keyword in lower case, behind no `$` or
-- `#`, and not all digits.
pub record IsVariable (host : Host) (name : Text) : Type 0 where
  pub free : find_kind (host.lowercase name) kinds ≡ other
  pub no_dollar : peek_is b'$' name ≡ false
  pub no_hash : peek_is b'#' name ≡ false
  pub no_index : all_chars is_digit name ≡ false
  pub not_empty : is name [] ≡ false

hash_alone : (name : Text) → peek_is b'#' name ≡ false → is name (text "#") ≡ false
hash_alone [] h = refl
hash_alone (c ∷ name) h = ground arith

get_var_assigned :
    (now : ℤ) (c : TagContext) (name value : Text)
    → lookup name c.vars ≡ some value
    → get_var now c name none none ≡ some value
unfolding get_var string_index
get_var_assigned now c name value e = rw (get_var, e) refl

module _ (host : Host) (name : Text) (v : IsVariable host name) where
  no_digits : (payload : Option Text) (m : Machine) → digit_var host m name payload ≡ none
  no_digits payload m = rw (v.not_empty, v.no_index) refl

  -- Such a block is dispatched to the lookup of its name.
  dispatch_variable :
      (parameter payload : Option Text) (value : Text) (m : Machine)
      → get_var host.timestamp m.ctx name parameter payload ≡ some value
      → process_block host name parameter payload m ≡ some (value, m)
  unfolding process_block process_kind
  dispatch_variable parameter payload value m e =
      rw
        (
          v.no_dollar,
          v.free,
          hash_alone name v.no_hash,
          v.no_hash,
          var_or_source,
          no_digits payload m,
          e,
        )
        refl

  -- Where no variable of its name is known, a block whose name is not empty, not all digits,
  -- begins with neither $ nor #, and is no keyword in lower case gives its own source text, and
  -- changes nothing.
  pub process_block-reconstruct :
      (parameter payload : Option Text) (m : Machine)
      → get_var host.timestamp m.ctx name parameter payload ≡ none
      → process_block host name parameter payload m ≡ some (reconstruct name parameter payload, m)
  unfolding process_block process_kind
  process_block-reconstruct parameter payload m e =
      rw
        (
          v.no_dollar,
          v.free,
          hash_alone name v.no_hash,
          v.no_hash,
          var_or_source,
          no_digits payload m,
          e,
        )
        refl

  -- After {$name:value}, which gives no text, a block of that name without a parameter gives the
  -- value, if the name is not empty, not all digits, begins with neither $ nor #, and is no
  -- keyword in lower case.
  pub process_block-assigned :
      (value : Text) (m : Machine)
      → (process_block host (b'$' ∷ name) none (some value) m ≡ some ([], set_var name value m))
        × (process_block host name none none (set_var name value m)
            ≡ some (value, set_var name value m))
  process_block-assigned value m = (assigned, read_back)
    where
      assigned :
          process_block host (b'$' ∷ name) none (some value) m ≡ some ([], set_var name value m)
      assigned = unfold process_block in rw v.not_empty refl

      found : lookup name (insert name value m.ctx.vars) ≡ some value
      found = lookup-insert name name value m.ctx.vars ∙ rw ((list_beq_iff name name).1 refl) refl

      read_back :
          process_block host name none none (set_var name value m)
          ≡ some (value, set_var name value m)
      read_back =
          dispatch_variable none none value (set_var name value m)
            (get_var_assigned host.timestamp (set_var name value m).ctx name value found)
