-- ===== src/Residency/Adding.antt =====
-- src/capabilityhub/residency.py: what `add` leaves.
use capabilityhub.Base.{
  ◌+◌, ◌≤◌, String, ◌≡◌, ◌≢◌, refl, sym, ◌∙◌, subst, true, false, Option, none, some, List, [], ◌∷◌,
  arith, length, All,
}
use capabilityhub.Dict.{
  text_key, get, put, remove, get-put_self, get-put_ne, get-remove_ne, put-IsDict,
}
use capabilityhub.Errors.{runtime_error}
use capabilityhub.Result.{Result, ok, raise}
use capabilityhub.Residency.{
  ResidentSection, Eviction, Entries, ContextInventory, used_tokens, is_candidate, evict_loop,
  touched, restore, finish_add, add,
}
use capabilityhub.Residency.Evictions.{IsKeyed, Shrunk, evict_loop-Shrunk, remove-IsKeyed}

put-own :
    (k : String) (e : ResidentSection) (d : Entries)
    → k ≡ e.key
    → All (λ x. x.0 ≡ x.1.key) d
    → All (λ x. x.0 ≡ x.1.key) (put k e d)
put-own k e [] own o = (own, tt)
put-own k e ((j, w) ∷ d) own o = ground (arith, put-own k e d own o.1, o.0, o.1)

put-IsKeyed :
    (k : String) (e : ResidentSection) (d : Entries) → k ≡ e.key → IsKeyed d → IsKeyed (put k e d)
put-IsKeyed k e d own v = record { dict = put-IsDict k e d v.dict; own = put-own k e d own v.own }

-- What an addition leaves.
pub record Added (entry : ResidentSection) (inv : ContextInventory)
    (p : Result (List Eviction) × ContextInventory) : Type 0 where
  pub never : p.0 ≢ raise runtime_error
  pub fits : (vs : List Eviction) → p.0 ≡ ok vs → used_tokens p.1.entries ≤ inv.max_portable_tokens
  pub placed :
      (vs : List Eviction)
      → p.0 ≡ ok vs
      → get entry.key p.1.entries ≡ some (touched entry inv.clock)
  pub keeps_pinned :
      (q : String) (x : ResidentSection)
      → q ≢ entry.key
      → x.pinned ≡ true
      → get q inv.entries ≡ some x
      → get q p.1.entries ≡ some x

module _ (entry : ResidentSection) (inv : ContextInventory) (v : IsKeyed inv.entries) where
  abbrev placed_entries : Entries
  placed_entries = put entry.key (touched entry inv.clock) (remove entry.key inv.entries)

  loop_left :
      Shrunk inv.max_portable_tokens entry.key placed_entries
        (evict_loop (length placed_entries) inv.max_portable_tokens entry.key placed_entries)
  loop_left =
      evict_loop-Shrunk inv.max_portable_tokens entry.key (length placed_entries) placed_entries
        (put-IsKeyed entry.key (touched entry inv.clock) (remove entry.key inv.entries) refl
          (remove-IsKeyed entry.key inv.entries v))
        (omega arith)

  get-placed : (q : String) → q ≢ entry.key → get q placed_entries ≡ get q inv.entries
  get-placed q ne =
      get-put_ne entry.key q (touched entry inv.clock) (remove entry.key inv.entries) ne
      ∙ get-remove_ne entry.key q inv.entries ne

  get-restore :
      (previous : Option ResidentSection) (d : Entries) (q : String)
      → q ≢ entry.key
      → get q (restore entry.key previous d) ≡ get q d
  get-restore none d q ne = get-remove_ne entry.key q d ne
  get-restore (some e) d q ne =
      get-put_ne entry.key q e (remove entry.key d) ne ∙ get-remove_ne entry.key q d ne

  finished :
      (previous : Option ResidentSection)
      → Added entry inv (
          finish_add entry previous
            (record inv { entries = placed_entries; clock = inv.clock + 1 }))
  unfolding finish_add
  finished previous =
      by_result
        (evict_loop (length placed_entries) inv.max_portable_tokens entry.key placed_entries).0
        (evict_loop (length placed_entries) inv.max_portable_tokens entry.key placed_entries).1
        loop_left
    where
      after : Result (List Eviction) → Entries → Result (List Eviction) × ContextInventory
      after r d = elim r [
        | ok vs ↦ (ok vs, record inv { entries = d; clock = inv.clock + 1 })
        | raise e ↦
            (raise e, record inv { entries = restore entry.key previous d; clock = inv.clock + 1 })
      ]

      stays : (x : ResidentSection) → x.pinned ≡ true → is_candidate entry.key x ≡ false
      stays x pinned = ground arith

      own : is_candidate entry.key (touched entry inv.clock) ≡ false
      own = ground arith

      by_result :
          (r : Result (List Eviction)) (d : Entries)
          → Shrunk inv.max_portable_tokens entry.key placed_entries (r, d)
          → Added entry inv (after r d)
      by_result (ok us) d s = record {
        never = λ e. cc;
        fits = λ vs e. s.fits us refl;
        placed = λ vs e.
            s.keeps entry.key (touched entry inv.clock)
              (get-put_self entry.key (touched entry inv.clock) (remove entry.key inv.entries)) own;
        keeps_pinned = λ q x ne pinned i. s.keeps q x (get-placed q ne ∙ i) (stays x pinned);
      }
      by_result (raise y) d s = record {
        never = s.never;
        fits = λ vs e. absurd (cc);
        placed = λ vs e. absurd (cc);
        keeps_pinned = λ q x ne pinned i.
            get-restore previous d q ne ∙ s.keeps q x (get-placed q ne ∙ i) (stays x pinned);
      }

-- In an inventory whose entries stand under their own keys, `add` of an entry with a key ends for
-- another reason than want of fuel. If it returns, the entries fit the maximum and the new one is
-- among them, touched. Whether it returns or raises, every other entry that is pinned stays.
pub add-Added :
    (entry : ResidentSection) (inv : ContextInventory)
    → IsKeyed inv.entries
    → entry.key ≢ ""
    → Added entry inv (add entry inv)
unfolding add
add-Added entry inv v named =
    subst (Added entry inv) (sym (add_named)) (finished entry inv v (get entry.key inv.entries))
  where
    add_named :
        add entry inv
        ≡ finish_add entry (get entry.key inv.entries) (record inv {
          entries = put entry.key (touched entry inv.clock) (remove entry.key inv.entries);
          clock = inv.clock + 1;
        })
    add_named = ground arith
