-- ===== src/Ledger/Templates/Applied.antt =====
-- What applying a template of packages/ledger/src/templates.ts does to the books.
use mathlib.Core.List.{append_assoc, append-nil}
use pnw.Base.{
  ◌≡◌, refl, sym, ap, ◌∙◌, subst, true, Option, none, List, [], ◌∷◌, ◌++◌, any, arith, last?,
  Bool-cases, inl, inr,
}
use pnw.Data.Result.{ok, >>=-eq-ok, ok-injective}
use pnw.Data.Text.{Text, text_eq, text_eq_iff, trim}
use pnw.Ledger.Books.State.{Books, Hashes}
use pnw.Ledger.Accounts.{Account, AccountInput}
use pnw.Ledger.Books.Chart.{add_account, insert_account, account_id}
use pnw.Ledger.Books.History.{Step, Reach}
use pnw.Ledger.Books.History.Reachable.{Reach-IsSound}
use pnw.Ledger.Templates.Rows.{
  has_name, IsUnder, AreMade, are_ready, stands_under, templates-ready, any-append, any-last,
  under-parent, IsUnder-append,
}
use pnw.Ledger.Templates.{
  TemplateAccount, TemplateId, apply_rows, apply_template, template_accounts, parents_first,
}

module _ (lower_case : Text → Text) (h : Hashes) where
  -- The account that is added stands at the end, with what it was given.
  add_account-made :
      (b b' : Books) (input : AccountInput) (made : Option Account)
      → add_account lower_case b input ≡ ok (b', made)
      → (a : Account) × (b'.accounts ≡ b.accounts ++ a ∷ [])
        × (a.name ≡ trim input.name)
        × (a.number ≡ input.number)
        × (a.type ≡ input.type)
        × (a.parent_id ≡ input.parent_id)
        × (a.active ≡ true)
        × (a.system ≡ none)
  unfolding add_account insert_account
  add_account-made b b' input made e =
      let a : Account = record {
        id = account_id b.next_account;
        name = trim input.name;
        number = input.number;
        type = input.type;
        parent_id = input.parent_id;
        description = input.description;
        active = true;
        system = none;
      } in
      let (next, inserted, done) =
        >>=-eq-ok (insert_account lower_case b input none) (λ next. ok (next, last? next.accounts))
          e in
      let grown : next.accounts ≡ b.accounts ++ a ∷ [] = ground arith in
      let same : next ≡ b' = ap (λ (r : Books × Option Account). r.0) (ok-injective _ _ done) in
      (a, ap (λ (b : Books). b.accounts) (sym same) ∙ grown, refl, refl, refl, refl, refl, refl)

  apply_rows-adds :
      (rows : List TemplateAccount) (seen : List Text) (b b' : Books)
      → Reach lower_case h b
      → are_ready seen rows ≡ true
      → ((name : Text) → any (text_eq name) seen ≡ true → any (has_name name) b.accounts ≡ true)
      → apply_rows lower_case rows b ≡ ok b'
      → Reach lower_case h b'
        × (made : List Account) × (b'.accounts ≡ b.accounts ++ made)
        × AreMade b'.accounts rows made
  unfolding are_ready
  apply_rows-adds [] seen b b' r ready known e =
      let same = ok-injective b b' e in
      (
        subst (Reach lower_case h) same r,
        [],
        ap (λ (b : Books). b.accounts) (sym same) ∙ sym (append-nil b.accounts),
        tt,
      )
  apply_rows-adds (row ∷ rows) seen b b' r ready known e =
      let ((next, made), added, e') = >>=-eq-ok (add_account lower_case b _) _ e in
      let (a, grown, name, number, type, parent, active, plain) =
        add_account-made b next _ made added in
      let trimmed : trim row.name ≡ row.name =
        (text_eq_iff (trim row.name) row.name).0 (ground arith) in
      let placed : stands_under seen row.parent ≡ true = ground arith in
      let named : a.name ≡ row.name = name ∙ trimmed in
      let still : (n : Text)
          → any (text_eq n) (row.name ∷ seen) ≡ true
          → any (has_name n) next.accounts ≡ true =
        λ n found.
          subst (λ as'. any (has_name n) as' ≡ true) (sym grown)
            (elim (Bool-cases (text_eq n row.name)) [
              | inl here ↦
                  any-last n b.accounts a
                    ((text_eq_iff a.name n).1 (named ∙ sym ((text_eq_iff n row.name).0 here)))
              | inr other ↦
                  any-append n b.accounts (a ∷ []) (known n (ground (arith, found, other)))
            ]) in
      let (reached, rest, all, made_rest) =
        apply_rows-adds rows (row.name ∷ seen) next b'
          (Reach.stepped r (Step.account_added _ made added)) (ground arith) still e' in
      let whole : b'.accounts ≡ b.accounts ++ a ∷ rest =
        all ∙ ap (λ as'. as' ++ rest) grown ∙ append_assoc b.accounts (a ∷ []) rest in
      let under = under-parent b row seen (Reach-IsSound lower_case h r).ids placed known in
      (
        reached,
        a ∷ rest,
        whole,
        (
          record {
            name = named;
            number = number;
            type = type;
            active = active;
            plain = plain;
            under =
                subst (λ as'. IsUnder as' row.parent a.parent_id) (sym whole)
                  (IsUnder-append b.accounts (a ∷ rest) row.parent a.parent_id
                    (subst (IsUnder b.accounts row.parent) (sym parent) under));
          },
          made_rest,
        ),
      )

  -- A template that applies to books that the operations reach gives books that the operations reach:
  -- behind the accounts that were there stands one account for each of the template's, those without a
  -- parent first, with the template's name, number and type, active and without a system role; under
  -- the chart's first account of the parent's name where the template has a parent, and at the top
  -- where it has none.
  pub apply_template-adds :
      (id : TemplateId) (b b' : Books)
      → Reach lower_case h b
      → apply_template lower_case b id ≡ ok b'
      → Reach lower_case h b'
        × (made : List Account) × (b'.accounts ≡ b.accounts ++ made)
        × AreMade b'.accounts (parents_first (template_accounts id)) made
  unfolding apply_template
  apply_template-adds id b b' r e =
      apply_rows-adds (parents_first (template_accounts id)) [] b b' r (templates-ready id)
        (λ name found. absurd (cc)) e
