-- ===== src/Tagscript/Blocks/Time.antt =====
-- src/tagscript/blocks.rs: `strftime` and `parse_iso`.
use benny_rs.Base.{Bool, not, Option, none, some, List, [], ◌∷◌, if◌then◌else◌}
use benny_rs.Base.Text.{Text, text, is, trim, is_digit, all_chars}
use benny_rs.Base.Show.{parse_i64}
use benny_rs.Tagscript.Host.{Host}
use benny_rs.Tagscript.Blocks.Numbers.{or_zero}

abbrev pub iso_formats : List Text
iso_formats =
    text "%Y-%m-%dT%H:%M:%S%.f"
    ∷ text "%Y-%m-%dT%H:%M:%S"
    ∷ text "%Y-%m-%d %H:%M:%S"
    ∷ text "%Y-%m-%d"
    ∷ []

module _ (host : Host) where
  -- The loop over the formats. At the date alone a date is tried too, at midnight.
  unfoldable pub try_formats : Text → List Text → Option host.Time
  try_formats s [] = none
  try_formats s (fmt ∷ fmts) =
      let further = try_formats s fmts in
      elim (host.parse_datetime fmt s) [
        | some t ↦ some t
        | none ↦
            if is fmt (text "%Y-%m-%d")
            then elim (host.parse_date s) [ some t ↦ some t | none ↦ further ]
            else further
      ]

  unfoldable pub parse_iso : Text → Option host.Time
  unfolding try_formats
  parse_iso s = elim (host.parse_rfc3339 s) [ some t ↦ some t | none ↦ try_formats s iso_formats ]

  -- The time that the trimmed text stands for: the present, if it is empty.
  unfoldable pub time_of : Text → Option host.Time
  unfolding parse_iso parse_i64
  time_of [] = some host.now
  time_of (c ∷ s) =
      if all_chars is_digit (c ∷ s)
      then host.from_timestamp (or_zero (parse_i64 (c ∷ s)))
      else parse_iso (c ∷ s)

  abbrev pub trimmed_or_empty : Option Text → Text
  trimmed_or_empty none = []
  trimmed_or_empty (some s) = trim s

  -- The format and the time, in this order.
  unfoldable pub format_at : Option Text → Option Text → Text
  unfolding time_of trim
  format_at none ts = []
  format_at (some []) ts = []
  format_at (some (c ∷ fmt)) ts =
      if not (host.is_format (c ∷ fmt))
      then []
      else elim (time_of (trimmed_or_empty ts)) [ none ↦ [] | some t ↦ host.format t (c ∷ fmt) ]

  unfoldable pub strftime : Option Text → Option Text → (spec_order : Bool) → Text
  unfolding format_at
  strftime parameter payload spec_order =
      if spec_order then format_at parameter payload else format_at payload parameter
