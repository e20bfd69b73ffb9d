-- ===== src/Policy/Enforce/Store.antt =====
-- What the client documents of its calls on namespaces, and what one step of a loop does under it.
use astradns_operator.Base.{
  [], ◌∷◌, String, Bool, true, ◌&&◌, ◌==◌, Option, none, some, List, any, Result, ok, err, map_err,
  ◌≡◌, ◌≢◌, refl, sym, ◌∙◌, ap, subst, All, eq_iff, arith, if◌then◌else◌, Bool-cases, inl, inr,
}
use astradns_operator.Dict.{get}
use astradns_operator.Kube.{fetched, absent}
use astradns_operator.Policy.{Namespace}
use astradns_operator.Policy.Annotations.{patch_failed, entries_of, remove_annotations}
use astradns_operator.Policy.Annotations.Keys.{is_managed}
use astradns_operator.Policy.Annotations.Ownership.{remove_annotations-cases}
use astradns_operator.Policy.Enforce.{Namespaces}

-- No two of the namespaces have one name.
abbrev pub HasDistinctNames : List Namespace → Type 0
HasDistinctNames [] = Unit
HasDistinctNames (x ∷ xs) = All (λ y. x.name ≢ y.name) xs × HasDistinctNames xs

abbrev pub has_name : String → List Namespace → Bool
has_name n l = any (λ x. x.name == n) l

-- The cluster that a world stores, by name, and the calls on it. A list holds every namespace once;
-- a patch that succeeds stores its namespace, and none touches another.
pub record IsStore {E W : Type 0} (client : Namespaces E W) (stored : W → String → Option Namespace)
    : Type 0 where
  pub named : (w : W) (n : String) (x : Namespace) → stored w n ≡ some x → x.name ≡ n
  pub listed :
      (w : W) (l : List Namespace) → client.list w ≡ ok l → All (λ x. stored w x.name ≡ some x) l
  pub complete :
      (w : W) (l : List Namespace) (n : String) (x : Namespace)
      → client.list w ≡ ok l
      → stored w n ≡ some x
      → has_name n l ≡ true
  pub distinct : (w : W) (l : List Namespace) → client.list w ≡ ok l → HasDistinctNames l
  pub found :
      (w : W) (n : String) (x : Namespace)
      → client.get_namespace w n ≡ fetched x
      → stored w n ≡ some x
  pub missing : (w : W) (n : String) → client.get_namespace w n ≡ absent → stored w n ≡ none
  pub written :
      (w : W) (x : Namespace)
      → (client.patch x w).0 ≡ ok tt
      → stored (client.patch x w).1 x.name ≡ some x
  pub others :
      (w : W) (x : Namespace) (n : String) → x.name ≢ n → stored (client.patch x w).1 n ≡ stored w n

-- The namespace that is stored at the end is `z` without the four keys, if the test holds.
abbrev pub Leaves : Bool → Namespace → Option Namespace → Type 0
Leaves test z o =
    (y : Namespace) × (o ≡ some y)
    × ((k : String)
        → get (entries_of y) k ≡ (if test && is_managed k then none else get (entries_of z) k))

pub patch_ok : {E : Type 0} (r : Result E (Unit {0})) → map_err patch_failed r ≡ ok tt → r ≡ ok tt
patch_ok (ok _) h = refl
patch_ok (err e) h = absurd (ground arith)

module _ {E W : Type 0} (client : Namespaces E W) (stored : W → String → Option Namespace)
    (store : IsStore client stored) where
  -- A removal or an update touches no namespace of another name.
  pub remove_annotations-others :
      (x : Namespace) (w : W) (n : String)
      → x.name ≢ n
      → stored (remove_annotations client.patch x w).1 n ≡ stored w n
  remove_annotations-others x w n other =
      let (cleared, same_name, _, did) = remove_annotations-cases client.patch x w in
      elim did [
        | inl (nothing, _) ↦ ap (λ r. stored r.1 n) nothing
        | inr wrote ↦
            ap (λ r. stored r.1 n) wrote ∙ store.others w cleared n (λ e. other (sym same_name ∙ e))
      ]

  pub remove_annotations-Leaves :
      (x : Namespace) (w : W) (n : String) (z : Namespace)
      → stored w x.name ≡ some x
      → (remove_annotations client.patch x w).0 ≡ ok tt
      → stored w n ≡ some z
      → Leaves (x.name == n) z (stored (remove_annotations client.patch x w).1 n)
  remove_annotations-Leaves x w n z here done there =
      let (cleared, same_name, keys, did) = remove_annotations-cases client.patch x w in
      elim (Bool-cases (x.name == n)) [
        | inr other ↦
            let apart : x.name ≢ n = ground (arith, eq_iff x.name n, other) in
            (z, remove_annotations-others x w n apart ∙ there, λ k. rw other refl)
        | inl same ↦
            let at : x.name ≡ n = ground (arith, eq_iff x.name n, same) in
            let alike : x ≡ z = cc (subst (λ m. stored w m ≡ some x) at here, there) in
            elim did [
              | inl (nothing, unchanged) ↦ (
                z,
                ap (λ r. stored r.1 n) nothing ∙ there,
                λ k. rw same (
                    subst
                      (λ u.
                        get (entries_of u) k
                        ≡ (if is_managed k then none else get (entries_of u) k))
                      alike (ap (λ m. get m k) (sym unchanged) ∙ keys k)),
              )
              | inr wrote ↦ (
                cleared,
                ap (λ r. stored r.1 n) wrote
                    ∙ subst (λ m. stored (client.patch cleared w).1 m ≡ some cleared)
                        (same_name ∙ at)
                        (store.written w cleared
                          (patch_ok (client.patch cleared w).0 (sym (ap (λ r. r.0) wrote) ∙ done))),
                λ k. rw same (
                    subst
                      (λ u.
                        get (entries_of cleared) k
                        ≡ (if is_managed k then none else get (entries_of u) k))
                      alike (keys k)),
              )
            ]
      ]
