-- ===== src/Login/Faults.antt =====
-- Where a password alone does open a session of an account with a second factor (auth_handlers.go,
-- twofa.go).
use aleart_hub.Base.{◌≡◌, refl, ap, ◌∙◌, true, false, some, [], arith, nat_eq, text_eq}
use aleart_hub.Access.{Claims, User}
use aleart_hub.TwoFactor.{
  Totp, Totps, Io, Generated, get_totp, set_row, status, upsert_totp_pending, begin,
}
use aleart_hub.TwoFactor.Rows.{status_lem}
use aleart_hub.Login.{
  Site, World, LoginReq, open_session, audit_login_attempt, password_user, second_factor_on,
  handle_login, handle_2fa_begin,
}

opens_when_off :
    (site : Site) (io : Io) (req : LoginReq) (u : User) (w : World)
    → password_user site req ≡ some u
    → second_factor_on site io u (audit_login_attempt site u.upn true w) ≡ false
    → handle_login site io (some req) w
      ≡ open_session site u (audit_login_attempt site u.upn true w)
unfolding handle_login
opens_when_off site io req u w known off = rw (known, off, handle_login) refl

unreadable_off :
    (site : Site) (io : Io) (u : User) (w : World)
    → io.reads ≡ false
    → second_factor_on site io u w ≡ false
unfolding second_factor_on status get_totp
unreadable_off site io u w broken = ground arith

begun_off :
    (site : Site) (io : Io) (g : Generated) (u : User) (t : Totps)
    → io.writes ≡ true
    → (begin io (some g) u.id t).0 u.id
      ≡ some (record { secret_enc = g.sealed; recovery = []; enabled = false })
unfolding begin upsert_totp_pending set_row
begun_off site io g u t writes = ground arith

row_off :
    (site : Site) (io : Io) (u : User) (w : World) (r : Totp)
    → io.reads ≡ true
    → w.totps u.id ≡ some r
    → r.enabled ≡ false
    → second_factor_on site io u w ≡ false
unfolding second_factor_on
row_off site io u w r reads row off = ground (arith, status_lem io u.id w.totps r reads row)

begin_world :
    (site : Site) (io : Io) (g : Generated) (c : Claims) (u : User) (w : World)
    → site.two_fa ≡ true
    → site.directory.user_by_id c.user_id ≡ some u
    → (handle_2fa_begin site io (some g) w (some c)).0
      ≡ record w { totps = (begin io (some g) u.id w.totps).0 }
unfolding handle_2fa_begin
begin_world site io g c u w wired row = ground arith

-- The right password of an account opens a session, whatever its second factor says, in two cases:
-- where login cannot read the row of the second factor; and, with a database that reads and writes,
-- after a request of 2fa/begin with a session of the account, to which no code was given.
pub handle_login_open :
    (site : Site) (broken io : Io) (g : Generated) (req : LoginReq) (c : Claims) (u : User)
    (w : World)
    → password_user site req ≡ some u
    → broken.reads ≡ false
    → io.reads ≡ true
    → io.writes ≡ true
    → site.two_fa ≡ true
    → site.directory.user_by_id c.user_id ≡ some u
    → let w' = (handle_2fa_begin site io (some g) w (some c)).0 in
      (handle_login site broken (some req) w
        ≡ open_session site u (audit_login_attempt site u.upn true w))
      × (handle_login site io (some req) w'
          ≡ open_session site u (audit_login_attempt site u.upn true w'))
unfolding audit_login_attempt
handle_login_open site broken io g req c u w known unread reads writes wired row =
    let w' = (handle_2fa_begin site io (some g) w (some c)).0 in
    let begun = begin_world site io g c u w wired row in
    let off = ap (λ (x : World). x.totps u.id) begun ∙ begun_off site io g u w.totps writes in
    (
      opens_when_off site broken req u w known (unreadable_off site broken u _ unread),
      opens_when_off site io req u w' known (row_off site io u _ _ reads off refl),
    )
