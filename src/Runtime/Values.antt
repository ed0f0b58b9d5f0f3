-- ===== src/Runtime/Values.antt =====
-- runtime/values.py: what a value is, and looking into one. A text is its code points; a list and a map
-- hold values of the same type, so they are declared with it, and a map keeps its keys in order.
-- A float is its bit pattern: everything that is said of floats is a field of `Python`.
pub mod Lookup
use doomtp_bot.Prelude.{
  ℕ, zero, suc, ◌+◌, ◌-◌, String, Bool, true, false, not, ◌&&◌, ◌||◌, Option, none, some, List, [],
  ◌∷◌, ◌++◌, Text, leb, ltb, ◌==◌, nat_eq, list_eq, list_beq, all, points, if◌then◌else◌,
}
use doomtp_bot.Prelude.Int.{ℤ, pos, negsuc}

mutual
  pub data Value : Type 0 where
    -- MISSING, which is no JSON value
    missing : Value
    null : Value
    boolean : Bool → Value
    integer : ℤ → Value
    float : ℕ → Value
    text : Text → Value
    sequence : Items → Value
    mapping : Fields → Value

  pub data Items : Type 0 where
    nil : Items
    cons : Value → Items → Items

  pub data Fields : Type 0 where
    end : Fields
    field : Text → Value → Fields → Fields

-- What the code asks of Python's numbers and texts.
pub record Python : Type 0 where
  -- A character that `\d` takes, and one that `str.isdigit` takes.
  pub is_decimal : ℕ → Bool
  pub is_digit : ℕ → Bool
  -- str(n), and repr of a float as `render_float` cuts it
  pub show_int : ℤ → Text
  pub show_float : ℕ → Text
  -- json.dumps, in the compact form
  pub to_json : Value → Text
  pub lower : Text → Text
  -- float(text) of a text that reads as a float, where it is finite
  pub read_float : Text → Option ℕ
  -- int(text) of a sign and decimal digits, and of any text, where it does not raise
  pub read_decimal : Text → ℤ
  pub read_int : Text → Option ℤ
  -- `left == right` of two values
  pub same_value : Value → Value → Bool

-- value is MISSING or value is None or value == ""
unfoldable pub is_missing : Value → Bool
is_missing missing = true
is_missing null = true
is_missing (text []) = true
is_missing (text (c ∷ cs)) = false
is_missing (boolean b) = false
is_missing (integer n) = false
is_missing (float x) = false
is_missing (sequence xs) = false
is_missing (mapping fs) = false

unfoldable pub length_of : Items → ℕ
length_of nil = 0
length_of (cons v xs) = suc (length_of xs)

unfoldable pub append_items : Items → Items → Items
append_items nil ys = ys
append_items (cons v xs) ys = cons v (append_items xs ys)

-- value[i], for a position in range
unfoldable pub item_at : Items → ℕ → Option Value
item_at nil i = none
item_at (cons v xs) zero = some v
item_at (cons v xs) (suc i) = item_at xs i

unfoldable pub set_item : Items → ℕ → Value → Items
set_item nil i w = nil
set_item (cons v xs) zero w = cons w xs
set_item (cons v xs) (suc i) w = cons v (set_item xs i w)

-- del value[i]
unfoldable pub drop_item : Items → ℕ → Items
drop_item nil i = nil
drop_item (cons v xs) zero = xs
drop_item (cons v xs) (suc i) = cons v (drop_item xs i)

-- value.get(key)
unfoldable pub field_at : Text → Fields → Option Value
field_at key end = none
field_at key (field name v fs) = if name == key then some v else field_at key fs

-- value[key] = v
unfoldable pub set_field : Text → Value → Fields → Fields
set_field key v end = field key v end
set_field key v (field name w fs) =
    if name == key then field key v fs else field name w (set_field key v fs)

-- del value[key]
unfoldable pub drop_field : Text → Fields → Fields
drop_field key end = end
drop_field key (field name w fs) =
    if name == key then drop_field key fs else field name w (drop_field key fs)

module _ (py : Python) where
  unfoldable mutual
    pub render : Value → Text
    render missing = []
    render null = []
    render (boolean true) = points "true"
    render (boolean false) = points "false"
    render (integer n) = py.show_int n
    render (float x) = py.show_float x
    render (text t) = t
    render (sequence xs) = render_items xs
    render (mapping fs) = py.to_json (mapping fs)

    -- ", ".join(render(v) for v in value)
    pub render_items : Items → Text
    render_items nil = []
    render_items (cons v nil) = render v
    render_items (cons v (cons w xs)) = render v ++ (44 ∷ 32 ∷ render_items (cons w xs))
