-- ===== src/Policy/Enforce/Steps.antt =====
-- What one update does to the namespaces that the client stores.
use astradns_operator.Base.{
  String, Bool, ◌==◌, Option, some, ok, ◌≡◌, ◌≢◌, refl, sym, ◌∙◌, ap, subst, eq_iff, arith,
  if◌then◌else◌, Bool-cases, Result-cases, inl, inr,
}
use astradns_operator.Dict.{get}
use astradns_operator.Policy.{Policy, Namespace}
use astradns_operator.Policy.Annotations.{entries_of, check_owner, update_annotations}
use astradns_operator.Policy.Annotations.Wanted.{wanted_entry}
use astradns_operator.Policy.Annotations.Ownership.{
  update_annotations-settles, update_annotations-refused,
}
use astradns_operator.Policy.Enforce.{Namespaces}
use astradns_operator.Policy.Enforce.Store.{IsStore, patch_ok}

-- The namespace that is stored at the end has the entries that the policy wants on `z`, if the test
-- holds, and those of `z` if not.
abbrev pub Applied : Policy → Bool → Namespace → Option Namespace → Type 0
Applied policy test z o =
    (y : Namespace) × (o ≡ some y)
    × ((k : String)
        → get (entries_of y) k
          ≡ (if test then wanted_entry policy k (get (entries_of z) k) else get (entries_of z) k))

module _ {E W : Type 0} (client : Namespaces E W) (stored : W → String → Option Namespace)
    (store : IsStore client stored) (policy : Policy) where
  pub update_annotations-others :
      (x : Namespace) (w : W) (n : String)
      → x.name ≢ n
      → stored (update_annotations client.patch policy x w).1 n ≡ stored w n
  update_annotations-others x w n other = elim (Result-cases (check_owner policy x)) [
    | inr (c, refused) ↦
        ap (λ r. stored r.1 n) (update_annotations-refused client.patch policy x w c refused)
    | inl (_, passed) ↦
        let (m, reads, did, _) = update_annotations-settles client.patch policy x w passed in
        elim did [
          | inr (_, nothing) ↦ ap (λ r. stored r.1 n) nothing
          | inl wrote ↦
              ap (λ r. stored r.1 n) wrote
              ∙ store.others w (record x { annotations = some m }) n other
        ]
  ]

  -- An update that succeeds leaves its namespace as the policy wants it.
  pub update_annotations-Applied :
      (x : Namespace) (w : W) (n : String) (z : Namespace)
      → stored w x.name ≡ some x
      → (update_annotations client.patch policy x w).0 ≡ ok tt
      → stored w n ≡ some z
      → Applied policy (x.name == n) z (stored (update_annotations client.patch policy x w).1 n)
  update_annotations-Applied x w n z here done there = elim (Result-cases (check_owner policy x)) [
    | inr (c, refused) ↦
        absurd (ground (arith, done, update_annotations-refused client.patch policy x w c refused))
    | inl (_, passed) ↦
        let (m, reads, did, _) = update_annotations-settles client.patch policy x w passed in
        elim (Bool-cases (x.name == n)) [
          | inr other ↦
              let apart : x.name ≢ n = ground (arith, eq_iff x.name n, other) in
              (z, update_annotations-others x w n apart ∙ there, λ k. rw other refl)
          | inl same ↦
              let at : x.name ≡ n = ground (arith, eq_iff x.name n, same) in
              let alike : x ≡ z = cc (subst (λ m. stored w m ≡ some x) at here, there) in
              let updated : Namespace = record x { annotations = some m } in
              let wants : (k : String) → get m k ≡ wanted_entry policy k (get (entries_of z) k) =
                subst (λ u. (k : String) → get m k ≡ wanted_entry policy k (get (entries_of u) k))
                  alike reads in
              elim did [
                | inr (unchanged, nothing) ↦ (
                  z,
                  ap (λ r. stored r.1 n) nothing ∙ there,
                  λ k. rw same (
                      ap (λ d. get d k) (sym (unchanged ∙ ap (λ u. entries_of u) alike)) ∙ wants k),
                )
                | inl wrote ↦ (
                  updated,
                  ap (λ r. stored r.1 n) wrote
                      ∙ subst (λ m. stored (client.patch updated w).1 m ≡ some updated) at
                          (store.written w updated (
                            patch_ok (client.patch updated w).0
                              (sym (ap (λ r. r.0) wrote) ∙ done))),
                  λ k. rw same (wants k),
                )
              ]
        ]
  ]
