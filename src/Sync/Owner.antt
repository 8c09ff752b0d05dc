-- ===== src/Sync/Owner.antt =====
-- `uploadOwner` of internal/sync/transfer.go: the account that uploads are attributed to. The accounts are the host's answer.
use tdrive_aliyunpan.Base.{
  ◌≡◌, refl, sym, ◌∙◌, ◌⊎◌, inl, inr, Bool, true, false, not, ◌&&◌, List, [], ◌∷◌, Text, codes,
  text_eq, text_eq_iff, is_empty, ◌++◌, Result, ok, err, arith, Bool-cases, if◌then◌else◌,
}

-- The fields of the host's account that the code reads.
pub record User : Type 0 where
  pub id : Text
  pub username : Text
  pub role : Text
  pub enabled : Bool

abbrev disabled_text : Text → Text
disabled_text name = codes "指定的上传归属账号 " ++ name ++ codes " 已停用，请启用账号或重新指定"

abbrev owner_disabled_text : Text → Text
owner_disabled_text name = codes "插件所有者账号 " ++ name ++ codes " 已停用，请先在 tdrive 启用该账号"

-- The loop for an owner who was configured.
unfoldable pub configured_owner : Text → List User → Result Text Text
configured_owner id [] = err (codes "配置的上传归属账号不存在，或该账号不是当前插件的所有者；请检查设置")
configured_owner id (u ∷ users) =
    if text_eq u.id id
    then if not u.enabled then err (disabled_text u.username) else ok u.id
    else configured_owner id users

-- The loop for the first administrator.
unfoldable pub first_admin : List User → Result Text Text
first_admin [] = err (codes "未找到可用的上传归属账号，请检查账号状态")
first_admin (u ∷ users) =
    if text_eq u.role (codes "admin") && u.enabled then ok u.id else first_admin users

-- `hostapi.OwnedByCaller`: the host names one account.
abbrev caller_owner : List User → Result Text Text
caller_owner (u ∷ []) = if not u.enabled then err (owner_disabled_text u.username) else ok u.id
caller_owner users = first_admin users

abbrev owner_of : Text → List User → Result Text Text
owner_of [] users = caller_owner users
owner_of (c ∷ id) users = configured_owner (c ∷ id) users

-- `uploadOwner`
unfoldable pub upload_owner : Text → Result Text (List User) → Result Text Text
upload_owner configured (err e) = err (codes "读取账号信息: " ++ e)
upload_owner configured (ok users) = owner_of configured users

-- An enabled account of the list has the ID.
abbrev IsEnabled : Text → List User → Type 0
IsEnabled id [] = ⊥
IsEnabled id (u ∷ users) = ((u.id ≡ id) × (u.enabled ≡ true)) ⊎ IsEnabled id users

configured_owner-IsEnabled :
    (configured id : Text) (users : List User)
    → configured_owner configured users ≡ ok id
    → IsEnabled id users × (id ≡ configured)
unfolding configured_owner
configured_owner-IsEnabled configured id [] h = absurd (ground arith)
configured_owner-IsEnabled configured id (u ∷ users) h =
    elim (Bool-cases (text_eq u.id configured)) [
      | inl e ↦ named e (Bool-cases u.enabled)
      | inr e ↦
          let rest = configured_owner-IsEnabled configured id users (ground arith) in
          (inr rest.0, rest.1)
    ]
  where
    named :
        text_eq u.id configured ≡ true
        → (u.enabled ≡ true) ⊎ (u.enabled ≡ false)
        → IsEnabled id (u ∷ users) × (id ≡ configured)
    named e (inl on) =
        let it : u.id ≡ id = ground arith in
        (inl (it, on), sym it ∙ (text_eq_iff u.id configured).0 e)
    named e (inr off) = absurd (ground arith)

first_admin-IsEnabled :
    (id : Text) (users : List User) → first_admin users ≡ ok id → IsEnabled id users
unfolding first_admin
first_admin-IsEnabled id [] h = absurd (ground arith)
first_admin-IsEnabled id (u ∷ users) h =
    elim (Bool-cases (text_eq u.role (codes "admin") && u.enabled)) [
      | inl e ↦ inl (ground arith, ground arith)
      | inr e ↦ inr (first_admin-IsEnabled id users (ground arith))
    ]

caller_owner-IsEnabled :
    (id : Text) (users : List User) → caller_owner users ≡ ok id → IsEnabled id users
caller_owner-IsEnabled id [] h = first_admin-IsEnabled id [] h
caller_owner-IsEnabled id (u ∷ []) h = elim (Bool-cases u.enabled) [
  | inl e ↦ inl (ground arith, e)
  | inr e ↦ absurd (ground arith)
]
caller_owner-IsEnabled id (u ∷ v ∷ users) h = first_admin-IsEnabled id (u ∷ v ∷ users) h

-- The owner of an upload is an enabled account that the host names, and the configured one if there
-- is one.
upload_owner-IsEnabled :
    (configured id : Text) (users : List User)
    → upload_owner configured (ok users) ≡ ok id
    → IsEnabled id users × ((is_empty configured ≡ true) ⊎ (id ≡ configured))
unfolding upload_owner
upload_owner-IsEnabled [] id users h = (caller_owner-IsEnabled id users h, inl refl)
upload_owner-IsEnabled (c ∷ configured) id users h =
    let named = configured_owner-IsEnabled (c ∷ configured) id users h in (named.0, inr named.1)
