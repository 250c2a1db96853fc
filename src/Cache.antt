-- ===== src/Cache.antt =====
-- cache.rs: a map whose entries are served for a limited time. An `Instant` is a number; `elapsed`
-- stops at 0, as `Instant::elapsed` does. `AsyncTimedCache` makes the same calls under a lock.
pub mod Laws
use matrix_bridge_slack.Prelude.{
  ℕ, ◌-◌, Bool, true, false, Option, none, some, List, [], ltb, length, is_empty, is_some, retain,
  if◌then◌else◌,
}
use matrix_bridge_slack.Prelude.Assoc.{Eq, lookup, without, insert as insert_entry}

pub record TimedValue {ℓ} (V : Type ℓ) : Type ℓ where
  pub value : V
  pub inserted_at : ℕ

pub record TimedCache {ℓ} (K V : Type ℓ) : Type ℓ where
  pub entries : List (K × TimedValue V)
  pub ttl : ℕ

unfoldable pub new {ℓ} : {K V : Type ℓ} → ℕ → TimedCache K V
new ttl = record { entries = []; ttl = ttl }

-- `tv.inserted_at.elapsed() < self.ttl`
abbrev pub is_live {ℓ} : {V : Type ℓ} → ℕ → ℕ → TimedValue V → Bool
is_live ttl now tv = ltb (now - tv.inserted_at) ttl

abbrev pub if_live {ℓ} : {V : Type ℓ} → ℕ → ℕ → Option (TimedValue V) → Option V
if_live ttl now none = none
if_live ttl now (some tv) = if is_live ttl now tv then some tv.value else none

abbrev value_of {ℓ} : {V : Type ℓ} → Option (TimedValue V) → Option V
value_of none = none
value_of (some tv) = some tv.value

module _ {ℓ} {K V : Type ℓ} ⦃e : Eq K⦄ where
  unfoldable pub get : ℕ → TimedCache K V → K → Option V
  get now c key = if_live c.ttl now (lookup key c.entries)

  unfoldable pub insert : ℕ → TimedCache K V → K → V → TimedCache K V
  insert now c key value = record c {
    entries = insert_entry key (record { value = value; inserted_at = now }) c.entries;
  }

  unfoldable pub remove : TimedCache K V → K → TimedCache K V × Option V
  remove c key = (record c { entries = without key c.entries }, value_of (lookup key c.entries))

  unfoldable pub clear : TimedCache K V → TimedCache K V
  clear c = record c { entries = [] }

  unfoldable pub len : TimedCache K V → ℕ
  len c = length c.entries

  unfoldable pub contains_key : ℕ → TimedCache K V → K → Bool
  unfolding get
  contains_key now c key = is_some (get now c key)

  unfoldable pub cleanup_expired : ℕ → TimedCache K V → TimedCache K V
  cleanup_expired now c = record c {
    entries = retain (λ entry. is_live c.ttl now entry.1) c.entries;
  }
