-- ===== src/Bot/Referral.antt =====
-- Referrals: a user is invited once, by somebody else, and never again.
use telegram_osint.Base.{
  ℕ, ◌≡◌, refl, ap, ◌∙◌, true, false, Option, none, some, List, [], ◌∷◌, is_some, if◌then◌else◌,
  arith, Bool-cases, inl, inr,
}
use telegram_osint.Bot.Users.{User, is_id, record_referral}

-- The referrals that a user's row is offered, in order.
unfoldable pub record_referrals : List ℕ → User → User
record_referrals [] u = u
record_referrals (inviter ∷ rest) u = record_referrals rest (record_referral inviter u).0

-- the first inviter who is not the user
abbrev pub first_other : Option ℕ → List ℕ → Option ℕ
first_other own [] = none
first_other own (inviter ∷ rest) = if is_id inviter own then first_other own rest else some inviter

record_referrals_invited :
    (inviters : List ℕ) (u : User)
    → is_some u.invited_by_telegram_id ≡ true
    → record_referrals inviters u ≡ u
unfolding record_referrals record_referral
record_referrals_invited [] u h = refl
record_referrals_invited (inviter ∷ rest) u h = rw h (record_referrals_invited rest u h)

refer_own :
    (inviter : ℕ) (u : User)
    → is_id inviter u.telegram_user_id ≡ true
    → (record_referral inviter u).0 ≡ u
unfolding record_referral
refer_own inviter u own = ground arith

refer_other :
    (inviter : ℕ) (u : User)
    → u.invited_by_telegram_id ≡ none
    → is_id inviter u.telegram_user_id ≡ false
    → (record_referral inviter u).0 ≡ record u { invited_by_telegram_id = some inviter }
unfolding record_referral
refer_other inviter u h other = ground arith

-- Of all the inviters that a new user's row is offered, the first who is not the user is recorded, the
-- rest of the row stays as it is, and no later inviter replaces it.
pub record_referrals_first :
    (inviters : List ℕ) (u : User)
    → u.invited_by_telegram_id ≡ none
    → record_referrals inviters u
      ≡ record u { invited_by_telegram_id = first_other u.telegram_user_id inviters }
unfolding record_referrals
record_referrals_first [] u h = cc
record_referrals_first (inviter ∷ rest) u h = elim (Bool-cases (is_id inviter u.telegram_user_id)) [
  | inl own ↦
      ap (record_referrals rest) (refer_own inviter u own)
      ∙ record_referrals_first rest u h
      ∙ rw own refl
  | inr other ↦
      ap (record_referrals rest) (refer_other inviter u h other)
      ∙ record_referrals_invited rest _ refl
      ∙ rw other refl
]
