-- ===== src/Bot/Charge.antt =====
-- What `check_and_consume` does on a table without double rows, on every branch of it.
use telegram_osint.Base.{
  length-map, ℕ, ◌+◌, min, ◌≡◌, refl, sym, ap, ◌∙◌, ◌≢◌, true, false, ◌||◌, max, List, ◌==◌, leb,
  ltb, if◌then◌else◌, ok, arith, Bool-cases, inl, inr,
}
use telegram_osint.Bot.Principal.{user, Settings}
use telegram_osint.Bot.Users.{
  User, matches, get_or_create_for_telegram, count_referrals, spend, consume_free_action,
}
use telegram_osint.Bot.Quota.{QuotaStatus, charge, check_and_consume, status}
use telegram_osint.Bot.Lookups.{
  used_of, Unique, matches-consume_ne, matches-consume_self, referrals-consume, Found, find,
}

-- What one `check_and_consume` does.
pub record Charged (s : Settings) (id : ℕ) (users : List User) : Type 0 where
  pub given : QuotaStatus
  pub table : List User
  pub returned : check_and_consume s id users ≡ ok (given, table)
  pub verdict : given.allowed ≡ (
      leb s.referral_unlock_count (count_referrals id users)
      || ltb (used_of (matches id users)) s.free_osint_actions)
  pub unique : Unique table
  pub mine : used_of (matches id table) ≡ (
      if leb s.referral_unlock_count (count_referrals id users)
      then used_of (matches id users)
      else min
          (used_of (matches id users) + 1)
          (max (used_of (matches id users)) s.free_osint_actions))
  pub others : (x : ℕ) → x ≢ id → matches x table ≡ matches x users
  pub referrals : (x : ℕ) → count_referrals x table ≡ count_referrals x users

check_and_consume_found :
    (s : Settings) (id : ℕ) (users : List User) (u : User) (table : List User)
    → get_or_create_for_telegram id user users ≡ ok (u, table)
    → check_and_consume s id users ≡ ok (charge s id u table)
unfolding check_and_consume
check_and_consume_found s id users u table e = rw (e, check_and_consume) refl

module _ (s : Settings) (id : ℕ) where
  charge_unlocked :
      (u : User) (users : List User)
      → leb s.referral_unlock_count (count_referrals id users) ≡ true
      → charge s id u users ≡ (status s (count_referrals id users) true u.free_actions_used, users)
  unfolding charge
  charge_unlocked u users e = rw e refl

  charge_free :
      (u : User) (users : List User)
      → leb s.referral_unlock_count (count_referrals id users) ≡ false
      → ltb u.free_actions_used s.free_osint_actions ≡ true
      → charge s id u users ≡ (
        status s (count_referrals id users) true (u.free_actions_used + 1),
        consume_free_action id users,
      )
  unfolding charge
  charge_free u users e f = rw e (rw f refl)

  charge_spent :
      (u : User) (users : List User)
      → leb s.referral_unlock_count (count_referrals id users) ≡ false
      → ltb u.free_actions_used s.free_osint_actions ≡ false
      → charge s id u users ≡ (status s (count_referrals id users) false u.free_actions_used, users)
  unfolding charge
  charge_spent u users e f = rw e (rw f refl)

  Found-Unique : (users : List User) → Unique users → (f : Found id users) → Unique f.table
  Found-Unique users unique f x = elim (Bool-cases (x == id)) [
    | inl e ↦ let at : x ≡ id = ground arith in rw (at, f.only) (omega arith)
    | inr e ↦ let ne : x ≢ id = ground arith in rw (f.others x ne) (unique x)
  ]

  consumed-Unique : (users : List User) → Unique users → Unique (consume_free_action id users)
  consumed-Unique users unique x = elim (Bool-cases (x == id)) [
    | inl e ↦
        let at : x ≡ id = ground arith in
        rw (at, matches-consume_self id users)
          (rw (length-map (spend id) (matches id users)) (unique id))
    | inr e ↦ let ne : x ≢ id = ground arith in rw (matches-consume_ne id x users ne) (unique x)
  ]

  pub charged : (users : List User) → Unique users → Charged s id users
  charged users unique =
      elim (Bool-cases (leb s.referral_unlock_count (count_referrals id users))) [
        | inl open' ↦ record {
          given = status s (count_referrals id f.table) true f.row.free_actions_used;
          table = f.table;
          returned = found ∙ ap ok (charge_unlocked f.row f.table (rw (f.referrals id) open'));
          verdict = rw open' refl;
          unique = Found-Unique users unique f;
          mine = rw open' (rw f.only f.count);
          others = f.others;
          referrals = f.referrals;
        }
        | inr shut ↦ elim (Bool-cases (ltb f.row.free_actions_used s.free_osint_actions)) [
          | inl free ↦ record {
            given = status s (count_referrals id f.table) true (f.row.free_actions_used + 1);
            table = consume_free_action id f.table;
            returned = found ∙ ap ok (charge_free f.row f.table (rw (f.referrals id) shut) free);
            verdict = rw shut (sym (rw f.count at free));
            unique = consumed-Unique f.table (Found-Unique users unique f);
            mine =
                rw (shut, matches-consume_self id f.table)
                  (rw f.only (ground (arith, f.count, f.mine)));
            others = λ x ne. matches-consume_ne id x f.table ne ∙ f.others x ne;
            referrals = λ x. referrals-consume id x f.table ∙ f.referrals x;
          }
          | inr spent ↦ record {
            given = status s (count_referrals id f.table) false f.row.free_actions_used;
            table = f.table;
            returned = found ∙ ap ok (charge_spent f.row f.table (rw (f.referrals id) shut) spent);
            verdict = rw shut (sym (rw f.count at spent));
            unique = Found-Unique users unique f;
            mine = rw shut (rw f.only (ground (arith, f.count)));
            others = f.others;
            referrals = f.referrals;
          }
        ]
      ]
    where
      f : Found id users
      f = find id users unique

      found : check_and_consume s id users ≡ ok (charge s id f.row f.table)
      found = check_and_consume_found s id users f.row f.table f.returned
