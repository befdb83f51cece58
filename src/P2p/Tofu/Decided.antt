-- ===== src/P2p/Tofu/Decided.antt =====
-- What a writer makes of the ledger leaves the other pins.
use zyris_protocol.Prelude.{
  ◌≡◌, sym, ap, ◌∙◌, inl, inr, false, none, some, arith, if◌then◌else◌, Bool-cases, Text, text_eq,
  text_eq_iff, if-elim, Option-elim, Option-branches,
}
use zyris_protocol.Prelude.Named.{
  lookup_name, insert_name, remove_name, lookup_name-insert_name, lookup_name-remove_name,
}
use zyris_protocol.P2p.Tofu.{
  Entry, Ledger, Order, pin, forget, Decision, publish, answer, decide, decide_pin, decide_forget,
}
use zyris_protocol.P2p.Tofu.Alone.{Spares}

-- What a published ledger keeps.
abbrev pub Keeps : Text → Entry → Decision → Type 0
Keeps slug e (publish file) = lookup_name file slug ≡ some e
Keeps slug e (answer outcome) = Unit {0}

insert-keeps :
    (s slug : Text) (entry e : Entry) (file : Ledger)
    → lookup_name file s ≡ none
    → lookup_name file slug ≡ some e
    → lookup_name (insert_name file s entry) slug ≡ some e
insert-keeps s slug entry e file n h = elim (Bool-cases (text_eq s slug)) [
  | inl same ↦ absurd (clash ((text_eq_iff s slug).0 same))
  | inr other ↦
      lookup_name-insert_name file s slug entry
      ∙ ap (λ b. if b then some entry else lookup_name file slug) other
      ∙ h
]
  where
    clash : s ≡ slug → ⊥
    clash same = ground (arith, sym (ap (lookup_name file) same) ∙ n)

remove-keeps :
    (s slug : Text) (e : Entry) (file : Ledger)
    → text_eq s slug ≡ false
    → lookup_name file slug ≡ some e
    → lookup_name (remove_name file s) slug ≡ some e
remove-keeps s slug e file other h =
    lookup_name-remove_name file s slug
    ∙ ap (λ b. if b then none else lookup_name file slug) other
    ∙ h

pub decide-Keeps :
    (order : Order) (file : Ledger) (slug : Text) (e : Entry)
    → Spares slug order
    → lookup_name file slug ≡ some e
    → Keeps slug e (decide order file)
unfolding decide decide_pin decide_forget
decide-Keeps (pin s entry) file slug e spares h =
    Option-branches (Keeps slug e) (lookup_name file s) (λ n. insert-keeps s slug entry e file n h)
      (λ before found. if-elim (Keeps slug e) (text_eq before.endpoint_id entry.endpoint_id) tt tt)
decide-Keeps (forget s) file slug e spares h =
    Option-elim (Keeps slug e) (lookup_name file s) tt
      (λ before found. remove-keeps s slug e file spares h)
