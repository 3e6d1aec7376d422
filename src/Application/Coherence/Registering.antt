-- ===== src/Application/Coherence/Registering.antt =====
-- The health record while services are registered.
use platforma.Base.{
  String, ◌≡◌, refl, List, [], ◌∷◌, map, Option, some, arith, inl, inr, Bool-cases, str_eq, eq_iff,
  if◌then◌else◌,
}
use platforma.Base.Dict.{lookup, insert, lookup-insert}
use platforma.Application.{
  waiting, Application, Healthchecker, register_service, spawn_services, fresh,
}
use platforma.Application.Coherence.{IsCoherent}

lookup-registered :
    {A : Type 0} (name other : String) (service : A) (services : List (String × A))
    → lookup other (map (λ p. (p.0, waiting)) (insert name service services)) ≡ (
        if str_eq name other
        then some waiting
        else lookup other (map (λ p. (p.0, waiting)) services))
unfolding lookup insert
lookup-registered name other service [] = refl
lookup-registered name other service ((n, old) ∷ services) = ground (
  arith,
  lookup-registered name other service services,
  eq_iff n name,
  eq_iff n other,
  eq_iff name other,
)

-- If every registered service's entry is that of a service not yet started, then this is so after
-- another service is registered, or one again.
pub register_service-IsCoherent :
    {W : Type 0} (app : Application W) (name : String) (service : app.Runner)
    (check : Option (Healthchecker W))
    → IsCoherent (spawn_services app)
    → IsCoherent (spawn_services (register_service app name service check))
unfolding IsCoherent spawn_services register_service
register_service-IsCoherent app name service check c other =
    rw
      (
        lookup-registered name other service app.services,
        lookup-insert name other fresh app.health.services,
      )
      (elim (Bool-cases (str_eq name other)) [
        | inl same ↦ rw same (refl, refl, refl, refl)
        | inr different ↦ rw different (c other)
      ])
