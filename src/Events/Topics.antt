-- ===== src/Events/Topics.antt =====
-- internal/events/topics.go: the topics that an audited change is published on, and its type.
use simpledeploy.Prelude.{
  Bool, true, false, not, ◌||◌, ◌≡◌, ◌⊎◌, inl, inr, refl, List, [], ◌∷◌, ◌++◌, if◌then◌else◌, ◌==◌,
  any, All, All-append, Bool-cases,
}
use simpledeploy.Prelude.Text.{Text, text_eq, codes, has_prefix}

-- The constants are "global:" and a name.
abbrev global : Text → Text
global name = codes "global:" ++ name

abbrev app_topic : Text → Text
app_topic slug = codes "app:" ++ slug

abbrev is_one_of : Text → List Text → Bool
is_one_of category names = any (λ n. category == n) names

abbrev own_topic : Text → List Text
own_topic slug = if not (slug == []) then app_topic slug ∷ [] else []

-- User and API key actions of the category "system" wake the page of users too.
abbrev system_topics : Text → List Text
system_topics action =
    global (codes "settings")
    ∷ (if has_prefix action (codes "user_") || has_prefix action (codes "apikey_")
        then global (codes "users") ∷ []
        else [])

unfoldable category_topics : Text → Text → Text → List Text
category_topics category action slug =
    if is_one_of category (codes "compose" ∷ codes "endpoint" ∷ codes "env" ∷ [])
    then own_topic slug
    else if category == codes "lifecycle"
    then own_topic slug ++ global (codes "apps") ∷ []
    else if category == codes "deploy"
    then own_topic slug
    else if category == codes "backup"
    then own_topic slug ++ global (codes "backups") ∷ []
    else if category == codes "alert"
    then own_topic slug ++ global (codes "alerts") ∷ []
    else if category == codes "webhook"
    then global (codes "alerts") ∷ []
    else if category == codes "registry"
    then global (codes "registries") ∷ []
    else if is_one_of category (codes "access" ∷ codes "user" ∷ [])
    then global (codes "users") ∷ []
    else if is_one_of category (codes "settings" ∷ codes "gitsync" ∷ codes "audit_config" ∷ [])
    then global (codes "settings") ∷ []
    else if category == codes "system"
    then system_topics action
    else if category == codes "docker"
    then global (codes "docker") ∷ []
    else []

unfoldable topics_for_audit : Text → Text → Text → List Text
unfolding category_topics
topics_for_audit category action slug =
    global (codes "audit") ∷ category_topics category action slug

unfoldable type_for_category : Text → Text
type_for_category category =
    if is_one_of category (codes "compose" ∷ codes "endpoint" ∷ codes "env" ∷ [])
    then codes "app.changed"
    else if category == codes "lifecycle"
    then codes "app.status"
    else if category == codes "deploy"
    then codes "app.deploy"
    else if category == codes "backup"
    then codes "backup.changed"
    else if is_one_of category (codes "alert" ∷ codes "webhook" ∷ [])
    then codes "alert.changed"
    else if category == codes "registry"
    then codes "registry.changed"
    else if is_one_of category (codes "access" ∷ codes "user" ∷ [])
    then codes "user.changed"
    else if is_one_of category
        (codes "settings" ∷ codes "gitsync" ∷ codes "audit_config" ∷ codes "system" ∷ [])
    then codes "settings.changed"
    else if category == codes "docker"
    then codes "docker.changed"
    else codes "audit.appended"

-- A global topic, or the topic of the app that changed.
abbrev IsForApp : Text → Text → Type 0
IsForApp slug topic =
    (has_prefix topic (codes "global:") ≡ true)
    ⊎ ((topic ≡ app_topic slug) × ((slug == []) ≡ false))

data OnlyFor (slug : Text) (topics : List Text) : Type 0 where
  only : All (IsForApp slug) topics → OnlyFor slug topics

choose-OnlyFor :
    {slug : Text} {xs ys : List Text}
    → (b : Bool) → OnlyFor slug xs
    → OnlyFor slug ys
    → OnlyFor slug (if b then xs else ys)
choose-OnlyFor true hx hy = hx
choose-OnlyFor false hx hy = hy

global-OnlyFor :
    {slug name : Text} {topics : List Text}
    → OnlyFor slug topics
    → OnlyFor slug (global name ∷ topics)
unfolding has_prefix
global-OnlyFor (only h) = only (inl refl, h)

own-OnlyFor : {slug : Text} → OnlyFor slug (own_topic slug)
own-OnlyFor {slug} = elim (Bool-cases (slug == [])) [
  | inl empty ↦ rw empty (only tt)
  | inr named ↦ rw named (only (inr (refl, named), tt))
]

append-OnlyFor :
    {slug : Text} {xs ys : List Text} → OnlyFor slug xs → OnlyFor slug ys → OnlyFor slug (xs ++ ys)
append-OnlyFor {slug} {xs} {ys} (only hx) (only hy) = only (All-append (IsForApp slug) xs ys hx hy)

category-OnlyFor :
    (category action slug : Text) → OnlyFor slug (category_topics category action slug)
unfolding category_topics
category-OnlyFor category action slug =
    choose-OnlyFor (is_one_of category (codes "compose" ∷ codes "endpoint" ∷ codes "env" ∷ []))
      own-OnlyFor
      (choose-OnlyFor (category == codes "lifecycle")
        (append-OnlyFor {xs = own_topic slug} own-OnlyFor
          (global-OnlyFor {name = codes "apps"} (only tt)))
        (choose-OnlyFor (category == codes "deploy") own-OnlyFor (
          choose-OnlyFor (category == codes "backup")
            (append-OnlyFor {xs = own_topic slug} own-OnlyFor
              (global-OnlyFor {name = codes "backups"} (only tt)))
            (choose-OnlyFor (category == codes "alert")
              (append-OnlyFor {xs = own_topic slug} own-OnlyFor
                (global-OnlyFor {name = codes "alerts"} (only tt)))
              (choose-OnlyFor (category == codes "webhook")
                (global-OnlyFor {name = codes "alerts"} (only tt))
                (choose-OnlyFor (category == codes "registry")
                  (global-OnlyFor {name = codes "registries"} (only tt))
                  (choose-OnlyFor (is_one_of category (codes "access" ∷ codes "user" ∷ []))
                    (global-OnlyFor {name = codes "users"} (only tt))
                    (choose-OnlyFor
                      (is_one_of category
                        (codes "settings" ∷ codes "gitsync" ∷ codes "audit_config" ∷ []))
                      (global-OnlyFor {name = codes "settings"} (only tt))
                      (choose-OnlyFor (category == codes "system")
                        (global-OnlyFor {name = codes "settings"} (
                          choose-OnlyFor
                            (has_prefix action (codes "user_")
                              || has_prefix action (codes "apikey_"))
                            (global-OnlyFor {name = codes "users"} (only tt)) (only tt)))
                        (choose-OnlyFor (category == codes "docker")
                          (global-OnlyFor {name = codes "docker"} (only tt)) (only tt)))))))))))

-- A change is published on global topics, and on the topic of no app but the one it names.
topics_for_audit-IsForApp :
    (category action slug : Text) → All (IsForApp slug) (topics_for_audit category action slug)
unfolding topics_for_audit
topics_for_audit-IsForApp category action slug =
    all_of (global-OnlyFor (category-OnlyFor category action slug))
  where
    all_of : {topics : List Text} → OnlyFor slug topics → All (IsForApp slug) topics
    all_of (only h) = h
