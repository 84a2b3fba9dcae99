-- ===== src/Residency.antt =====
-- src/capabilityhub/residency.py: `ContextInventory`. The entries are values: the caller's object is
-- not changed again after it was added, but by the methods. Fractions are compared exactly.
pub mod Evictions
pub mod Adding
mod Tests
use capabilityhub.Base.{
  ℕ, zero, suc, ◌+◌, ◌*◌, max, String, Bool, true, false, ◌&&◌, ◌||◌, not, Option, none, some, List,
  [], ◌∷◌, ltb, leb, ◌==◌, if◌then◌else◌, ite, text_dec, length, codes, codes_before,
}
use capabilityhub.Dict.{Dict, text_key, get, put, remove}
use capabilityhub.Errors.{Exc, hub_error, budget, value_error, key_error, runtime_error}
use capabilityhub.Result.{Result, ok, raise}
use capabilityhub.Exec.{Exec, ◌>>=◌, ◌>>◌, pure}

pub record ResidentSection : Type 0 where
  pub key : String
  pub revision : String
  pub section : String
  pub portable_tokens : ℕ
  pub reload_cost : ℕ
  pub reuse_score : ℕ
  pub sensitive : Bool
  pub pinned : Bool
  pub last_access : ℕ

pub data EvictionReason : Type 0 where
  explicit budget_pressure : EvictionReason

pub record Eviction : Type 0 where
  pub key : String
  pub portable_tokens : ℕ
  pub reason : EvictionReason

abbrev pub Entries : Type 0
Entries = Dict String ResidentSection

pub record ContextInventory : Type 0 where
  pub max_portable_tokens : ℕ
  pub entries : Entries
  pub clock : ℕ

-- `ContextInventory.__init__`
unfoldable pub create_inventory : ℕ → Result ContextInventory
create_inventory max_portable_tokens =
    if max_portable_tokens == 0
    then raise value_error
    else ok (record { max_portable_tokens = max_portable_tokens; entries = []; clock = 0 })

-- `used_portable_tokens`
abbrev pub used_tokens : Entries → ℕ
used_tokens [] = 0
used_tokens ((k, e) ∷ d) = e.portable_tokens + used_tokens d

-- The two parts of the value of `_eviction_order`.
abbrev pub order_num : ResidentSection → ℕ
order_num e = e.reuse_score * e.reload_cost

abbrev pub order_den : ResidentSection → ℕ
order_den e = max 1 (e.portable_tokens * (if e.sensitive then 2 else 1))

-- `_eviction_order(a) < _eviction_order(b)`
unfoldable pub evicts_before : ResidentSection → ResidentSection → Bool
evicts_before a b =
    let left = order_num a * order_den b in
    let right = order_num b * order_den a in
    ltb left right
    || left == right
      && (ltb a.last_access b.last_access
          || a.last_access == b.last_access && codes_before (codes a.key) (codes b.key))

-- `not entry.pinned and entry.key not in exclude`, of one excluded key.
abbrev pub is_candidate : String → ResidentSection → Bool
is_candidate exclude e = not e.pinned && not (ite (text_dec e.key exclude) true false)

-- `min` of two, which keeps the first of equals.
abbrev pub first_out : Option ResidentSection → ResidentSection → ResidentSection
first_out none e = e
first_out (some best) e = if evicts_before e best then e else best

-- `min(candidates, key=self._eviction_order)`
unfoldable pub victim_from : String → Option ResidentSection → Entries → Option ResidentSection
victim_from exclude best [] = best
victim_from exclude best ((k, e) ∷ d) =
    victim_from exclude (if is_candidate exclude e then some (first_out best e) else best) d

abbrev pub context_budget_exhausted : Exc
context_budget_exhausted = hub_error "context_budget_exhausted" budget

abbrev pub evicted : ResidentSection → Eviction
evicted v = record { key = v.key; portable_tokens = v.portable_tokens; reason = budget_pressure }

-- The rest of the loop after the eviction of `v`.
abbrev pub prepend : Eviction → Result (List Eviction) × Entries → Result (List Eviction) × Entries
prepend v (ok vs, d) = (ok (v ∷ vs), d)
prepend v (raise e, d) = (raise e, d)

-- `_evict_to_limit`, where every entry stands under its own key. The fuel bounds the rounds.
unfoldable pub evict_loop : ℕ → ℕ → String → Exec Entries (List Eviction)
evict_loop zero limit exclude d =
    if leb (used_tokens d) limit then (ok [], d) else (raise runtime_error, d)
evict_loop (suc fuel) limit exclude d = elim (leb (used_tokens d) limit) [
  | true ↦ (ok [], d)
  | false ↦ elim (victim_from exclude none d) [
    | none ↦ (raise context_budget_exhausted, d)
    | some v ↦ prepend (evicted v) (evict_loop fuel limit exclude (remove v.key d))
  ]
]

-- `_touch`: the entry at the next time.
abbrev pub touched : ResidentSection → ℕ → ResidentSection
touched e clock = record e { last_access = clock + 1 }

-- The `except` branch of `add`: the entry goes, and the one before it comes back.
abbrev pub restore : String → Option ResidentSection → Entries → Entries
restore key none d = remove key d
restore key (some previous) d = put key previous (remove key d)

-- `add` once the entry is in place.
unfoldable pub finish_add :
    ResidentSection → Option ResidentSection → Exec ContextInventory (List Eviction)
finish_add entry previous inv =
    let (r, d) = evict_loop (length inv.entries) inv.max_portable_tokens entry.key inv.entries in
    elim r [
      | ok evictions ↦ (ok evictions, record inv { entries = d })
      | raise e ↦ (raise e, record inv { entries = restore entry.key previous d })
    ]

-- `add`
unfoldable pub add : ResidentSection → Exec ContextInventory (List Eviction)
add entry inv =
    if ite (text_dec entry.key "") true false
    then (raise value_error, inv)
    else finish_add entry (get entry.key inv.entries) (record inv {
      entries = put entry.key (touched entry inv.clock) (remove entry.key inv.entries);
      clock = inv.clock + 1;
    })

-- `access`
unfoldable pub access : String → Exec ContextInventory ResidentSection
access key inv = elim (get key inv.entries) [
  | none ↦ (raise key_error, inv)
  | some e ↦ (
    ok (touched e inv.clock),
    record inv { entries = put key (touched e inv.clock) inv.entries; clock = inv.clock + 1 },
  )
]

-- `pin`
unfoldable pub pin : String → Bool → Exec ContextInventory (Unit {0})
pin key value = do
  e ← access key
  λ inv. (ok tt, record inv { entries = put key (record e { pinned = value }) inv.entries })

-- `remove`
unfoldable pub remove_entry : String → Exec ContextInventory Eviction
remove_entry key inv = elim (get key inv.entries) [
  | none ↦ (raise key_error, inv)
  | some e ↦ (
    ok (record { key = key; portable_tokens = e.portable_tokens; reason = explicit }),
    record inv { entries = remove key inv.entries },
  )
]
