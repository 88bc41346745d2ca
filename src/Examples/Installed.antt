-- ===== src/Examples/Installed.antt =====
-- What a new installation creates.
use janus_core.Base.{
  ◌≡◌, refl, ◌⊎◌, inl, inr, Bool, true, false, none, List, [], ◌∷◌, map, length, trim, clean_list,
}
use janus_core.Base.Once.{once}
use janus_core.Assistants.{AssistantError, create_assistant_profile_revision, safe_id}
use janus_core.Assistants.Surface.{AssistantSurface, create_assistant_surface}
use janus_core.Assistants.Defaults.{
  default_landing_assistant_surfaces, default_landing_assistant_profile,
  upgrade_infinity_seed_group_surface,
}
use janus_core.Examples.Records.{platform, name_of}

abbrev created_surfaces : AssistantError ⊎ List AssistantSurface → List AssistantSurface
created_surfaces (inl e) = []
created_surfaces (inr s) = s

abbrev is_made {ℓ} : {E A : Type ℓ} → E ⊎ A → Bool
is_made (inl e) = false
is_made (inr a) = true

profile_made : is_made (default_landing_assistant_profile platform "t") ≡ true
unfolding default_landing_assistant_profile create_assistant_profile_revision safe_id trim
    mathlib.Core.Option.Option-elim once clean_list
profile_made = refl

three_surfaces :
    length (created_surfaces (default_landing_assistant_surfaces platform name_of "t")) ≡ 3
unfolding default_landing_assistant_surfaces create_assistant_surface safe_id trim
    mathlib.Core.Option.Option-elim once
three_surfaces = refl

-- The surfaces of a new installation need no upgrade.
upgrade_none :
    map
      (λ s. upgrade_infinity_seed_group_surface platform name_of s "t2")
      (created_surfaces (default_landing_assistant_surfaces platform name_of "t"))
    ≡ inr none ∷ inr none ∷ inr none ∷ []
unfolding default_landing_assistant_surfaces upgrade_infinity_seed_group_surface
    create_assistant_surface safe_id trim mathlib.Core.Option.Option-elim once
upgrade_none = refl
