-- ===== src/Bot/Admission.antt =====
-- Who gets through the wrapper: only the people that the settings name, and a public user for no more
-- metered actions than are left.
use telegram_osint.Base.{
  ℕ, ◌≡◌, refl, Bool, true, false, not, ◌&&◌, ◌||◌, Option, none, some, arith, inl, inr, ok, err,
  Result-cases,
}
use telegram_osint.Bot.Principal.{
  is_public, listed, Settings, Principal, AccessDenied, resolve_principal, require_admin,
}
use telegram_osint.Bot.Guard.{
  Command, denied, render_denied, Door, Surroundings, admit, recorded, authorized,
}

-- Who may use a command, by the settings alone.
abbrev pub permitted : Settings → Bool → Option ℕ → Bool
permitted s admin_only none = false
permitted s admin_only (some id) =
    listed id s.admin_ids || (not admin_only && (listed id s.allowed_ids || s.public_bot_enabled))

pub admit-permitted :
    (s : Settings) (admin_only : Bool) (id : Option ℕ) (p : Principal)
    → admit s admin_only id ≡ ok p
    → (permitted s admin_only id ≡ true) × (id ≡ some p.telegram_id)
unfolding admit resolve_principal require_admin
admit-permitted s admin_only none p e = cc
admit-permitted s admin_only (some id) p e = ground arith

pub unlisted_public :
    (s : Settings) (admin_only : Bool) (id : Option ℕ) (p : Principal)
    → admit s admin_only id ≡ ok p
    → listed p.telegram_id s.admin_ids ≡ false
    → listed p.telegram_id s.allowed_ids ≡ false
    → is_public p.role ≡ true
unfolding admit resolve_principal require_admin
unlisted_public s admin_only none p e a l = cc
unlisted_public s admin_only (some id) p e a l = ground arith

pub staff_not_public :
    (s : Settings) (admin_only : Bool) (id : ℕ) (p : Principal)
    → admit s admin_only (some id) ≡ ok p
    → (listed id s.admin_ids || listed id s.allowed_ids) ≡ true
    → is_public p.role ≡ false
unfolding admit resolve_principal require_admin
staff_not_public s admin_only id p e h = ground arith

admit_refused :
    (s : Settings) (admin_only : Bool) (id : Option ℕ)
    → permitted s admin_only id ≡ false
    → (e : AccessDenied) × (admit s admin_only id ≡ err e)
admit_refused s admin_only id h = elim (Result-cases (admit s admin_only id)) [
  | inl (p, e) ↦ absurd (cc (h, (admit-permitted s admin_only id p e).0))
  | inr (e, refused) ↦ (e, refused)
]

module _ {W : Type 0} (s : Settings) (env : Surroundings W) (now : ℕ) (cmd : Command) where
  -- A command from someone whom the settings do not permit gets a denial and leaves one audit entry
  -- with the reason: the handler does not run, and the limiter and the users are as they were.
  pub authorized_denied :
      (id : Option ℕ) (door : Door W)
      → permitted s cmd.admin id ≡ false
      → (e : AccessDenied) × (authorized s env now cmd id door
          ≡ (render_denied, recorded cmd id denied (some e) door))
  unfolding authorized
  authorized_denied id door h =
      let (e, refused) = admit_refused s cmd.admin id h in (e, rw (refused, authorized) refl)
