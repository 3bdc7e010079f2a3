-- ===== src/Passkey/Endpoints.antt =====
-- The endpoints of server/internal/api/passkey_handlers.go for a person's own passkeys, behind
-- requireRole: `claims` is what the context holds, empty for the static admin token. A body that
-- does not decode is `none`.
use aleart_hub.Base.{ℕ, Option, none, some, List, [], ◌∷◌, ◌++◌, map, if◌then◌else◌, Text, text}
use aleart_hub.Access.{Claims, User}
use aleart_hub.Passkey.{
  WebAuthn, Service, Visit, list_passkeys, delete_passkey, begin_registration, finish_registration,
}

-- A line of the audit trail.
pub record Note : Type 0 where
  pub action : Text
  pub target_id : Text
  pub detail : Text

pub record PasskeyDto : Type 0 where
  pub id : ℕ
  pub name : Text

pub data PasskeyReply : Type 0 where
  session_required unknown_user server_error refused no_content bad_json : PasskeyReply
  options_shown : Text → Text → PasskeyReply
  passkeys_shown : List PasskeyDto → PasskeyReply

module _ (wa : WebAuthn) (users : ℕ → Option User) where
  pub record Desk : Type 0 where
    pub service : Service wa
    pub trail : List Note

  abbrev noted : Text → Text → Text → Desk → Desk
  noted action target_id detail d = record d {
    trail = d.trail ++ record { action = action; target_id = target_id; detail = detail } ∷ [];
  }

  -- handlePasskeyRegBegin
  unfoldable pub handle_passkey_reg_begin : Option Claims → Visit → Desk → Desk × PasskeyReply
  handle_passkey_reg_begin none io d = (d, session_required)
  handle_passkey_reg_begin (some c) io d = elim (users c.user_id) [
    | none ↦ (d, unknown_user)
    | some u ↦
        let (s, made) = begin_registration wa io u.id u.upn d.service in
        elim made [
          | none ↦ (record d { service = s }, server_error)
          | some (options, sid) ↦ (record d { service = s }, options_shown options sid)
        ]
  ]

  -- handlePasskeyRegFinish
  unfoldable pub handle_passkey_reg_finish :
      Option Claims → Visit → Text → Text → Desk → Desk × PasskeyReply
  handle_passkey_reg_finish none io sid name d = (d, session_required)
  handle_passkey_reg_finish (some c) io sid name d = elim (users c.user_id) [
    | none ↦ (d, unknown_user)
    | some u ↦
        let (s, ok) = finish_registration wa io u.id u.upn sid name d.service in
        if ok
        then (
          noted (text "passkey.add") u.upn (text "passkey added: " ++ name)
              (record d { service = s }),
          no_content,
        )
        else (record d { service = s }, refused)
  ]

  -- handlePasskeyList
  unfoldable pub handle_passkey_list : Option Claims → Desk → PasskeyReply
  handle_passkey_list none d = passkeys_shown []
  handle_passkey_list (some c) d =
      passkeys_shown
        (map (λ p. record { id = p.id; name = p.name }) (list_passkeys c.user_id d.service.table))

  -- handlePasskeyDelete
  unfoldable pub handle_passkey_delete : Option Claims → Option ℕ → Desk → Desk × PasskeyReply
  handle_passkey_delete none body d = (d, session_required)
  handle_passkey_delete (some c) none d = (d, bad_json)
  handle_passkey_delete (some c) (some id) d = (
    noted (text "passkey.delete") c.upn (text "passkey removed") (record d {
      service = record (d.service) { table = delete_passkey c.user_id id d.service.table };
    }),
    no_content,
  )
