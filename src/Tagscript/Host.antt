-- ===== src/Tagscript/Host.antt =====
-- What the template engine calls that is not code of this repository: the `f64` arithmetic, the
-- case tables of Unicode, `serde_json`, `chrono` and `rand`. Every definition that uses them takes
-- them as a parameter, and no law is assumed of them here.
use benny_rs.Base.{ℕ, Bool, Option, List}
use benny_rs.Base.Int.{ℤ}
use benny_rs.Base.Text.{Text}

-- `serde_json::Value`. A number that is no integer is kept as its text.
mutual
  pub data Json : Type 0 where
    null : Json
    boolean : Bool → Json
    integer : ℤ → Json
    real : Text → Json
    string : Text → Json
    array : Items → Json
    object : Fields → Json

  pub data Items : Type 0 where
    nil : Items
    item : Json → Items → Items

  pub data Fields : Type 0 where
    end : Fields
    field : Text → Json → Fields → Fields

pub record Host : Type 1 where
  -- `f64`
  pub Float : Type 0
  pub parse_float : Text → Option Float
  pub float_zero : Float
  pub float_ten : Float
  pub add : Float → Float → Float
  pub sub : Float → Float → Float
  pub mul : Float → Float → Float
  pub div : Float → Float → Float
  pub rem : Float → Float → Float
  pub powf : Float → Float → Float
  pub neg : Float → Float
  pub float_eq : Float → Float → Bool
  pub float_lt : Float → Float → Bool
  pub float_le : Float → Float → Bool
  pub is_finite : Float → Bool
  pub to_i64 : Float → ℤ
  pub to_u64 : Float → ℕ
  pub of_i64 : ℤ → Float
  -- `n == n.trunc() && n.abs() < 1e15`, and `format!("{:.10}", n)`
  pub is_small_integer : Float → Bool
  pub fixed_ten : Float → Text
  -- `to_lowercase`, `to_uppercase`, and `from_utf8_lossy`
  pub lowercase : Text → Text
  pub uppercase : Text → Text
  pub from_utf8_lossy : List ℕ → Text
  -- `serde_json::from_str`
  pub parse_json : Text → Option Json
  -- `chrono`: `Utc::now()` and its `timestamp()`, `from_timestamp`, the parsers, whether a format is
  -- one that `StrftimeItems` reads with no error, and `format`
  pub Time : Type 0
  pub now : Time
  pub timestamp : ℤ
  pub from_timestamp : ℤ → Option Time
  pub parse_rfc3339 : Text → Option Time
  pub parse_datetime : (format s : Text) → Option Time
  pub parse_date : Text → Option Time
  pub is_format : Text → Bool
  pub format : Time → Text → Text
  -- The answers of the draws: `draw i n` is what the `i`-th call makes of `random_range(0..n)`, and
  -- `draw_between i lo hi` of `random_range(lo..=hi)`.
  pub draw : ℕ → ℕ → ℕ
  pub draw_between : ℕ → ℤ → ℤ → ℤ
