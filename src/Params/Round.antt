-- ===== src/Params/Round.antt =====
-- What the server finds in the object that the client builds.
use iperf_swift.Prelude.{
  ℕ, Bool, true, false, Option, none, some, List, [], ◌∷◌, if◌then◌else◌, ◌≡◌, ◌∙◌, refl, sym, ap,
  Bool-cases, inl, inr, arith,
}
use iperf_swift.Output.Root.{same_key}
use iperf_swift.Params.{IperfTest}
use iperf_swift.Params.Receive.{Item, Lookup}
use iperf_swift.Params.Send.{first, Entry, Cjson, CjsonLaws, find_entry, add_entries, all_entries}

first_assoc : (a b c : Option Item) → first (first a b) c ≡ first a (first b c)
first_assoc none b c = refl
first_assoc (some item) b c = refl

first-none : (a : Option Item) → first a none ≡ a
first-none none = refl
first-none (some item) = refl

abbrev entry : Entry → Lookup
entry (given, (name, item)) key =
    if same_key key name then (if given then some item else none) else none

find_entry-cons :
    (e : Entry) (entries : List Entry) (key : List ℕ)
    → find_entry (e ∷ entries) key ≡ first (entry e key) (find_entry entries key)
unfolding find_entry
find_entry-cons (given, (name, item)) entries key = ground arith

module _ (c : Cjson) (laws : CjsonLaws c) where
  open c use {Object, create, add, get_object_item}
  open laws use {get-create, get-add}

  add-finds :
      (o : Object) (given : Bool) (name : List ℕ) (item : Item) (key : List ℕ)
      → get_object_item (if given then add name item o else o) key
        ≡ first (get_object_item o key) (entry (given, (name, item)) key)
  add-finds o true name item key = get-add o name item key
  add-finds o false name item key = elim (Bool-cases (same_key key name)) [
    | inl same ↦ rw same (sym (first-none (get_object_item o key)))
    | inr other ↦ rw other (sym (first-none (get_object_item o key)))
  ]

  add_entries-finds :
      (entries : List Entry) (o : Object) (key : List ℕ)
      → get_object_item (add_entries c entries o) key
        ≡ first (get_object_item o key) (find_entry entries key)
  unfolding add_entries find_entry
  add_entries-finds [] o key = sym (first-none (get_object_item o key))
  add_entries-finds ((given, (name, item)) ∷ entries) o key =
      add_entries-finds entries (if given then add name item o else o) key
      ∙ (ap (λ a. first a (find_entry entries key)) (add-finds o given name item key)
          ∙ (first_assoc (get_object_item o key) (entry (given, (name, item)) key)
                (find_entry entries key)
              ∙ ap (first (get_object_item o key))
                  (sym (find_entry-cons (given, (name, item)) entries key))))

  -- The object that the client builds answers a search as the list of its entries does.
  pub built-finds :
      (version : List ℕ) (token : Option (List ℕ)) (t : IperfTest)
      → get_object_item (add_entries c (all_entries version token t) create)
        ≡ find_entry (all_entries version token t)
  built-finds version token t = λ i key.
      (add_entries-finds (all_entries version token t) create key
          ∙ ap (λ a. first a (find_entry (all_entries version token t) key)) (get-create key))
        i
