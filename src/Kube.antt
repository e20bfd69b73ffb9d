-- ===== src/Kube.antt =====
-- What the calls of the Kubernetes client return.
use astradns_operator.Base.{String, ◌≡◌, refl, ◌⊎◌, inl, inr, Bool, true, false}

-- `Get` of an object: the object, that there is none, or another error.
pub data Fetched {ℓ κ} (E : Type ℓ) (A : Type κ) : Type (ℓ ⊔ κ) where
  fetched : A → Fetched E A
  absent : Fetched E A
  broken : E → Fetched E A

-- `reconcile.Request`
pub record Request : Type 0 where
  pub namespace : String
  pub name : String

-- A change of an object that a controller watches, by namespace and name; a namespace has none itself.
pub data Change : Type 0 where
  pool_changed profile_changed policy_changed : String → String → Change
  namespace_changed : String → Change

pub Fetched-cases {ℓ κ} :
    {E : Type ℓ} {A : Type κ} (g : Fetched E A)
    → (g ≡ absent) ⊎ (((e : E) × (g ≡ broken e)) ⊎ ((a : A) × (g ≡ fetched a)))
Fetched-cases absent = inl refl
Fetched-cases (broken e) = inr (inl (e, refl))
Fetched-cases (fetched a) = inr (inr (a, refl))

abbrev pub is_fetched {ℓ κ} : {E : Type ℓ} {A : Type κ} → Fetched E A → Bool
is_fetched (fetched a) = true
is_fetched absent = false
is_fetched (broken e) = false
