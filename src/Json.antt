-- ===== src/Json.antt =====
-- serde_json's `Value`, as the handlers read it.
use matrix_bridge_slack.Prelude.{
  ℕ, ◌^◌, ltb, String, Bool, true, false, Option, none, some, ◌==◌, if◌then◌else◌,
}

-- a JSON integer that fits an i64 or a u64: `negsuc n` is -(n + 1)
pub data Integer : Type 0 where
  pos negsuc : ℕ → Integer

mutual
  pub data Value : Type 0 where
    null : Value
    bool : Bool → Value
    number : Integer → Value
    string : String → Value
    array : Values → Value
    object : Members → Value

  pub data Values : Type 0 where
    nil : Values
    cons : Value → Values → Values

  pub data Members : Type 0 where
    end : Members
    member : String → Value → Members → Members

abbrev get_member : String → Members → Option Value
get_member key end = none
get_member key (member k v ms) = if k == key then some v else get_member key ms

-- a member put in place of one of its name, or at the end
abbrev pub set_member : String → Value → Members → Members
set_member key value end = member key value end
set_member key value (member k v ms) =
    let rest = set_member key value ms in if k == key then member k value ms else member k v rest

-- `value.get(key)`
abbrev pub get : String → Value → Option Value
get key (object ms) = get_member key ms
get key _ = none

-- `Value::as_str`
abbrev pub as_str : Value → Option String
as_str (string s) = some s
as_str _ = none

-- `Value::as_i64`
abbrev pub as_i64 : Value → Option Integer
as_i64 (number (pos n)) = if ltb n (2 ^ 63) then some (pos n) else none
as_i64 (number (negsuc n)) = some (negsuc n)
as_i64 _ = none

-- `Value::as_u64`
abbrev pub as_u64 : Value → Option ℕ
as_u64 (number (pos n)) = some n
as_u64 _ = none

-- `Value::as_object`
abbrev pub as_object : Value → Option Members
as_object (object ms) = some ms
as_object _ = none

-- `Value::as_array`
abbrev pub as_array : Value → Option Values
as_array (array vs) = some vs
as_array _ = none

-- `Value::as_bool`
abbrev pub as_bool : Value → Option Bool
as_bool (bool b) = some b
as_bool _ = none

abbrev pub is_object : Value → Bool
is_object (object _) = true
is_object _ = false

abbrev pub and_then {ℓ} : {A B : Type ℓ} → Option A → (A → Option B) → Option B
and_then none f = none
and_then (some a) f = f a

-- `v.get(key).and_then(Value::as_str)`
abbrev pub get_str : String → Value → Option String
get_str key v = and_then (get key v) as_str

abbrev pub or_else {ℓ} : {A : Type ℓ} → Option A → Option A → Option A
or_else none o = o
or_else (some a) o = some a
