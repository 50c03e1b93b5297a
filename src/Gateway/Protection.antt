-- ===== src/Gateway/Protection.antt =====
-- Which of the routes of main.go need a token: all but three.
use Prim.Native.String.{len, slice}
use helpdesk_microservices.Base.{
  subst, ◌≡◌, ◌⊎◌, refl, sym, inl, inr, Bool, true, false, ◌&&◌, some, String, All, find_by_holds,
  arith, eq_iff, ◌=s=◌, if◌then◌else◌,
}
use helpdesk_microservices.Db.Rows.{find_by-All}
use helpdesk_microservices.Gateway.Routes.{Route, routes, route_matches, dispatch}

-- The three paths that need no token.
abbrev pub IsPublic : String → Type 0
IsPublic path = (path ≡ "/auth/login") ⊎ (path ≡ "/auth/register") ⊎ (path ≡ "/auth/refresh")

abbrev Guarded : Route → Type 0
Guarded r = (r.protected ≡ true) ⊎ ((r.below ≡ false) × IsPublic r.path)

routes-Guarded : All Guarded routes
unfolding routes
routes-Guarded = (
  inr (refl, inl refl),
  (
    inr (refl, inr (inl refl)),
    (
      inr (refl, inr (inr refl)),
      (
        inl refl,
        (
          inl refl,
          (
            inl refl,
            (
              inl refl,
              (
                inl refl,
                (
                  inl refl,
                  (
                    inl refl,
                    (inl refl, (inl refl, (inl refl, (inl refl, (inl refl, (inl refl, tt)))))),
                  ),
                ),
              ),
            ),
          ),
        ),
      ),
    ),
  ),
)

exact_path :
    (m : Bool) (path : String) (r : Route)
    → (m && (if r.below then slice path 0 (len r.path) =s= r.path else path =s= r.path)) ≡ true
    → r.below ≡ false
    → path ≡ r.path
exact_path m path r h exact = let test = rw exact at h in ground (arith, eq_iff path r.path)

pub dispatch-Guarded :
    (method path : String) (r : Route)
    → dispatch method path ≡ some r
    → (r.protected ≡ true) ⊎ IsPublic path
unfolding dispatch route_matches
dispatch-Guarded method path r h =
    let holds = find_by_holds (route_matches method path) routes r h in
    elim (find_by-All Guarded (route_matches method path) routes r h routes-Guarded) [
      | inl guarded ↦ inl guarded
      | inr (exact, public) ↦ inr (subst IsPublic (sym (exact_path _ path r holds exact)) public)
    ]
