-- ===== src/Residency/Tests.antt =====
-- src/capabilityhub/residency.py: additions that fit and one that does not, and the theorem at one.
use capabilityhub.Base.{
  ℕ, String, ◌≡◌, refl, Bool, true, false, none, some, [], ◌∷◌, text_dec, codes_before, text_ne,
}
use capabilityhub.Dict.{text_key, get}
use capabilityhub.Result.{ok, raise}
use capabilityhub.Residency.{
  ResidentSection, ContextInventory, create_inventory, evicts_before, victim_from, evict_loop,
  context_budget_exhausted, touched, finish_add, add, access, pin, remove_entry,
}
use capabilityhub.Residency.Adding.{Added, add-Added}

program : Unit {0}
unfolding text_dec create_inventory codes_before evicts_before victim_from evict_loop finish_add add
    access pin remove_entry
program = tt

abbrev section_of : String → ℕ → Bool → ResidentSection
section_of key tokens pinned = record {
  key = key;
  revision = "r";
  section = "s";
  portable_tokens = tokens;
  reload_cost = 1;
  reuse_score = 1;
  sensitive = false;
  pinned = pinned;
  last_access = 0;
}

abbrev empty : ContextInventory
empty = record { max_portable_tokens = 10; entries = []; clock = 0 }

created : create_inventory 10 ≡ ok empty
unfolding program
created = refl

-- A pinned section of 6 tokens, and one of 3 that may go.
abbrev two : ContextInventory
two = record {
  max_portable_tokens = 10;
  entries =
      ("a", touched (section_of "a" 6 true) 0) ∷ ("b", touched (section_of "b" 3 false) 1) ∷ [];
  clock = 2;
}

filled : (add (section_of "b" 3 false) (add (section_of "a" 6 true) empty).1).1 ≡ two
unfolding program
filled = refl

-- An addition that does not fit raises, but the section that it evicted before is gone.
failed_add_drops :
    ((add (section_of "c" 8 false) two).0 ≡ raise context_budget_exhausted)
    × (get "b" (add (section_of "c" 8 false) two).1.entries ≡ none)
    × (get "a" (add (section_of "c" 8 false) two).1.entries
        ≡ some (touched (section_of "a" 6 true) 0))
unfolding program
failed_add_drops = (refl, refl, refl)

add-Added_example : Added (section_of "c" 4 false) two (add (section_of "c" 4 false) two)
unfolding text_dec
add-Added_example =
    add-Added (section_of "c" 4 false) two
      (record { dict = (refl, (refl, tt)); own = (refl, (refl, tt)) }) (text_ne "c" "" refl)
