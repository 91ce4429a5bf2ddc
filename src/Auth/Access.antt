-- ===== src/Auth/Access.antt =====
-- Which keys may do what: authentication followed by the role's permissions.
use undr.Base.{◌≡◌, ◌⊎◌, inl, inr, refl, true, Bool-cases, arith, ◌↔◌}
use undr.Common.{ok}
use undr.Auth.{
  reader, writer, admin, Action, read, write, Principal, Bytes, AuthConfig, role_allows, is_allowed,
  secure_compare, authenticate,
}
use undr.Auth.Compare.{secure_compare_iff}

-- The key authenticates a principal whose role allows the action.
abbrev pub May : AuthConfig → Bytes → Action → Type 0
May config api_key action =
    (principal : Principal) × (authenticate config api_key ≡ ok principal)
    × (is_allowed principal action ≡ true)

-- What the configured keys are meant to grant.
abbrev pub Granted : AuthConfig → Bytes → Action → Type 0
Granted config api_key action =
    (api_key ≡ config.admin_api_key)
    ⊎ ((api_key ≡ config.writer_api_key) × ((action ≡ read) ⊎ (action ≡ write)))
    ⊎ ((api_key ≡ config.reader_api_key) × (action ≡ read))

writer_actions :
    (action : Action) → role_allows writer action ≡ true → (action ≡ read) ⊎ (action ≡ write)
unfolding role_allows
writer_actions action h = ground arith

reader_actions : (action : Action) → role_allows reader action ≡ true → action ≡ read
unfolding role_allows
reader_actions action h = ground arith

module _ (config : AuthConfig) (api_key : Bytes) (action : Action) where
  granted : May config api_key action → Granted config api_key action
  unfolding authenticate is_allowed
  granted (principal, authenticated, allowed) = ground (
    arith,
    secure_compare_iff api_key config.admin_api_key,
    secure_compare_iff api_key config.writer_api_key,
    secure_compare_iff api_key config.reader_api_key,
    writer_actions action,
    reader_actions action,
  )

  may : Granted config api_key action → May config api_key action
  unfolding authenticate is_allowed role_allows
  may g = elim (Bool-cases (secure_compare api_key config.admin_api_key)) [
    | inl is_admin ↦
        (record { name = config.bootstrap_admin_username; role = admin }, rw is_admin, refl)
    | inr not_admin ↦ elim (Bool-cases (secure_compare api_key config.writer_api_key)) [
      | inl is_writer ↦ (
        record { name = "writer"; role = writer },
        rw (not_admin, is_writer),
        ground (arith, secure_compare_iff api_key config.admin_api_key),
      )
      | inr not_writer ↦ (
        record { name = "reader"; role = reader },
        ground (
          arith,
          secure_compare_iff api_key config.admin_api_key,
          secure_compare_iff api_key config.writer_api_key,
          secure_compare_iff api_key config.reader_api_key,
        ),
        ground (
          arith,
          secure_compare_iff api_key config.admin_api_key,
          secure_compare_iff api_key config.writer_api_key,
        ),
      )
    ]
  ]

-- A key may do an action exactly when it is the admin key, or the writer key and the action is a
-- read or a write, or the reader key and the action is a read. No other key may do anything.
pub May-iff :
    (config : AuthConfig) (api_key : Bytes) (action : Action)
    → May config api_key action ↔ Granted config api_key action
May-iff config api_key action = (granted config api_key action, may config api_key action)
