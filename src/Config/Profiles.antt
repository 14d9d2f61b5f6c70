-- ===== src/Config/Profiles.antt =====
-- What a settings object that was built guarantees.
use accelerator_pack_auth_se.Prelude.{
  String, List, ◌≡◌, Bool, false, ◌||◌, Option, none, some, ok, refl, subst, ok-injective, ◌&&◌,
  Bool-cases, inl, inr, str_eq, contains, if◌then◌else◌,
}
use accelerator_pack_auth_se.Config.{
  Settings, Preset, profile_presets, apply_preset, model_post_init,
}

-- The value of a field after start: the preset's, unless the field was set or there is no preset.
abbrev pub preset_value : List String → String → Bool → (Preset → Bool) → Option Preset → Bool
preset_value fields_set key own field none = own
preset_value fields_set key own field (some p) = if contains fields_set key then own else field p

abbrev pub HasPreset : List String → Option Preset → Settings → Settings → Type 0
HasPreset fields_set preset s s' =
    (s'.local_auth_enabled
      ≡ preset_value fields_set "local_auth_enabled" s.local_auth_enabled
          (λ p. p.local_auth_enabled) preset)
    × (s'.oidc_enabled
        ≡ preset_value fields_set "oidc_enabled" s.oidc_enabled (λ p. p.oidc_enabled) preset)
    × (s'.saml_enabled
        ≡ preset_value fields_set "saml_enabled" s.saml_enabled (λ p. p.saml_enabled) preset)
    × (s'.scim_enabled
        ≡ preset_value fields_set "scim_enabled" s.scim_enabled (λ p. p.scim_enabled) preset)
    × (s'.audit_enabled
        ≡ preset_value fields_set "audit_enabled" s.audit_enabled (λ p. p.audit_enabled) preset)

apply_preset-HasPreset :
    (fields_set : List String) (preset : Option Preset) (s : Settings)
    → HasPreset fields_set preset s (apply_preset fields_set preset s)
unfolding apply_preset
apply_preset-HasPreset fields_set none s = (refl, refl, refl, refl, refl)
apply_preset-HasPreset fields_set (some p) s = (refl, refl, refl, refl, refl)

-- The settings object that is built can issue tokens only with an issuer, and each feature flag has
-- the value that was set explicitly, or else that of the profile, or else its own default.
pub model_post_init_lem :
    (fields_set : List String) (s s' : Settings)
    → model_post_init fields_set s ≡ ok s'
    → ((str_eq s'.issuer_url "" && (s'.local_auth_enabled || s'.oidc_enabled)) ≡ false)
      × HasPreset fields_set (profile_presets s.profile) s s'
unfolding model_post_init
model_post_init_lem fields_set s s' h =
    let built = apply_preset fields_set (profile_presets s.profile) s in
    elim (Bool-cases
      (str_eq built.issuer_url "" && (built.local_auth_enabled || built.oidc_enabled))) [
        | inl refused ↦ cc (rw refused at h)
        | inr fits ↦
            subst
              (λ r.
                ((str_eq r.issuer_url "" && (r.local_auth_enabled || r.oidc_enabled)) ≡ false)
                × HasPreset fields_set (profile_presets s.profile) s r)
              (ok-injective _ _ (rw fits at h))
              (fits, apply_preset-HasPreset fields_set (profile_presets s.profile) s)
      ]
