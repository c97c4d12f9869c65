-- ===== src/Provider/Registering.antt =====
-- The registry of the providers (internal/provider/provider.go).
use kortex.Common.{
  ◌≡◌, refl, ap, ◌∙◌, ◌↔◌, String, ◌==◌, string_eq, Option, none, some, List, [], ◌∷◌, In,
  if◌then◌else◌, Bool-cases, inl, inr, arith,
}
use text.Mathlib.TextEquality.{eq_iff}
use kortex.Common.Dict.{lookup, insert, lookup-insert}
use kortex.Provider.{
  Provider, provider_name, Registry, new_registry, register, get_provider, list_providers,
}

-- Some providers are registered, one after the other.
unfoldable pub register_all : List Provider → Registry → Registry
register_all [] r = r
register_all (p ∷ ps) r = register_all ps (register p r)

-- The last provider of a name, or what there was before.
unfoldable pub last_named : String → List Provider → Option Provider → Option Provider
last_named name [] before = before
last_named name (p ∷ ps) before =
    last_named name ps (if provider_name p == name then some p else before)

get_provider-register_all_from :
    (name : String) (ps : List Provider) (r : Registry)
    → get_provider name (register_all ps r) ≡ last_named name ps (get_provider name r)
unfolding register_all last_named get_provider register
get_provider-register_all_from name [] r = refl
get_provider-register_all_from name (p ∷ ps) r =
    get_provider-register_all_from name ps (insert (provider_name p) p r)
    ∙ ap (last_named name ps) (lookup-insert name (provider_name p) p r)

-- Something is registered under a name.
unfoldable pub IsRegistered : String → Registry → Type 0
IsRegistered name r = (p : Provider) × (get_provider name r ≡ some p)

list_providers-In :
    (name : String) (r : Registry) → In name (list_providers r) ↔ IsRegistered name r
unfolding list_providers IsRegistered get_provider lookup
list_providers-In name [] = (λ h. absurd h, λ h. ground arith)
list_providers-In name ((n, p) ∷ r) =
    let rest = list_providers-In name r in
    elim (Bool-cases (n == name)) [
      | inl same ↦ rw same (λ h. (p, refl), λ h. inl ((eq_iff n name).0 same))
      | inr other ↦ rw other (
        λ h. elim h [
          | inl here ↦ let equal = (eq_iff n name).1 here in ground arith
          | inr later ↦ rest.0 later
        ],
        λ h. inr (rest.1 h),
      )
    ]

-- After some registrations on a new registry, a name holds the provider of that name that was
-- registered last, and the names listed are those that hold one.
pub get_provider-register_all :
    (name : String) (ps : List Provider)
    → (let r = register_all ps new_registry in
        (get_provider name r ≡ last_named name ps none)
        × (In name (list_providers r) ↔ IsRegistered name r))
unfolding new_registry get_provider lookup
get_provider-register_all name ps =
    (get_provider-register_all_from name ps [], list_providers-In name (register_all ps []))
