-- ===== src/Sales/Parties.antt =====
-- packages/sales/src/sales.ts: the lists of customers and vendors.
use pnw.Base.{
  ℕ, ◌+◌, Bool, true, false, ◌&&◌, ◌||◌, not, Option, none, some, List, [], ◌∷◌, ◌++◌, map, find,
  any, all, or_else, ◌==◌, if◌then◌else◌,
}
use pnw.Data.Result.{ok, ◌>>=◌, ◌>>◌, fail_if, or_fail}
use pnw.Data.Text.{Text, codes, text_eq, trim, truthy, is_space}
use pnw.Data.Decimal.{show}
use pnw.Sales.Errors.{
  Fallible, refused, party_needs_name, already_on_list, bad_email, no_customer, no_vendor,
}
use pnw.Sales.State.{default_terms, Customer, Vendor, PartyInput, PartyChanges, Sales}

-- [^\s@]
abbrev pub is_address_char : ℕ → Bool
is_address_char c = not (is_space c) && not (c == b'@')

-- A dot with something behind it.
abbrev pub has_inner_dot : Text → Bool
has_inner_dot [] = false
has_inner_dot (c ∷ []) = false
has_inner_dot (c ∷ d ∷ s) = (c == b'.') || has_inner_dot (d ∷ s)

-- [^\s@]+\.[^\s@]+
abbrev pub is_domain : Text → Bool
is_domain [] = false
is_domain (c ∷ s) = all is_address_char (c ∷ s) && has_inner_dot s

-- /^[^\s@]+@[^\s@]+\.[^\s@]+$/ behind its first character.
abbrev pub matches_rest : Text → Bool
matches_rest [] = false
matches_rest (c ∷ s) = if c == b'@' then is_domain s else is_address_char c && matches_rest s

abbrev pub is_email : Text → Bool
is_email [] = false
is_email (c ∷ s) = is_address_char c && matches_rest s

abbrev pub trimmed : Option Text → Option Text
trimmed none = none
trimmed (some s) = truthy (some (trim s))

abbrev pub bad_address : Option Text → Bool
bad_address email = elim (trimmed email) [ none ↦ false | some s ↦ not (is_email s) ]

abbrev pub customer_input : Customer → PartyChanges → PartyInput
customer_input current changes = record {
  name = or_else changes.name current.name;
  email = or_else changes.email current.email;
  terms = or_else changes.terms (some current.terms);
}

-- What becomes of the vendor's mark for 1099s when it is given or not.
abbrev pub merged_active : Customer → PartyChanges → Bool
merged_active current changes = or_else changes.active current.active

unfoldable pub find_customer : Sales → Text → Fallible Customer
find_customer sales id = or_fail (find (λ c. text_eq c.id id) sales.customers) (refused no_customer)

unfoldable pub find_vendor : Sales → Text → Fallible Vendor
find_vendor sales id = or_fail (find (λ v. text_eq v.id id) sales.vendors) (refused no_vendor)

abbrev pub parties : List Vendor → List Customer
parties = map (λ v. v.party)

module _ (lower_case : Text → Text) where
  abbrev pub is_other_with_name : Option Text → Text → Customer → Bool
  is_other_with_name self name o =
      elim self [ none ↦ true | some id ↦ not (text_eq o.id id) ]
      && text_eq (lower_case o.name) (lower_case name)

  -- `cleanParty`, with the id and the state that the caller puts beside its result.
  unfoldable pub clean_party :
      PartyInput → List Customer → Option Text → Text → Bool → Fallible Customer
  clean_party input others self id active = do
    let name = trim input.name
    fail_if (text_eq name []) (refused party_needs_name)
    fail_if (any (is_other_with_name self name) others) (refused already_on_list)
    fail_if (bad_address input.email) (refused bad_email)
    ok record {
      id = id;
      name = name;
      email = trimmed input.email;
      terms = or_else input.terms default_terms;
      active = active;
    }

  unfoldable pub add_customer : Sales → PartyInput → Fallible (Sales × Customer)
  add_customer sales input = do
    let id = codes "cust-" ++ show sales.next_customer
    customer ← clean_party input sales.customers none id true
    ok (
      record sales {
        customers = sales.customers ++ customer ∷ [];
        next_customer = sales.next_customer + 1;
      },
      customer,
    )

  unfoldable pub update_customer : Sales → Text → PartyChanges → Fallible Sales
  update_customer sales id changes = do
    current ← find_customer sales id
    next ←
        clean_party (customer_input current changes) sales.customers (some id) id
          (merged_active current changes)
    ok (record sales { customers = map (λ c. if text_eq c.id id then next else c) sales.customers })

  unfoldable pub add_vendor : Sales → PartyInput → Bool → Fallible (Sales × Vendor)
  add_vendor sales input tracks_1099 = do
    let id = codes "vend-" ++ show sales.next_vendor
    party ← clean_party input (parties sales.vendors) none id true
    let vendor : Vendor = record { party = party; tracks_1099 = tracks_1099 }
    ok (
      record sales { vendors = sales.vendors ++ vendor ∷ []; next_vendor = sales.next_vendor + 1 },
      vendor,
    )

  unfoldable pub update_vendor : Sales → Text → PartyChanges → Option Bool → Fallible Sales
  update_vendor sales id changes tracks_1099 = do
    current ← find_vendor sales id
    party ←
        clean_party (customer_input current.party changes) (parties sales.vendors) (some id) id
          (merged_active current.party changes)
    let next : Vendor = record {
      party = party;
      tracks_1099 = or_else tracks_1099 current.tracks_1099;
    }
    ok (record sales { vendors = map (λ v. if text_eq v.id id then next else v) sales.vendors })
