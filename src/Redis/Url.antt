-- ===== src/Redis/Url.antt =====
-- `normalizeRedisUrl` of lib/redis-url.js.
use node_red_contrib_pod_gat.Prelude.{
  ◌≡◌, refl, subst, inl, inr, Bool-cases, Bool, true, false, not, ◌||◌, [], ◌∷◌, ◌++◌, Text, codes,
  text_eq, ◌==◌, length, nonempty, take, if◌then◌else◌,
}
use node_red_contrib_pod_gat.Result.{Result, ok, throws}
use node_red_contrib_pod_gat.Protocol.Text.{trim}
use node_red_contrib_pod_gat.Request.{lower}

-- `text.startsWith(prefix)`
unfoldable pub starts_with : Text → Text → Bool
starts_with prefix text = take (length prefix) text == prefix

-- `raw.includes('://')`
unfoldable pub has_scheme : Text → Bool
has_scheme [] = false
has_scheme (c ∷ s) = starts_with (codes "://") (c ∷ s) || has_scheme s

-- ^rediss?:// in any case
unfoldable pub is_redis_scheme : Text → Bool
is_redis_scheme raw =
    starts_with (codes "redis://") (lower raw) || starts_with (codes "rediss://") (lower raw)

unfoldable pub with_scheme : Text → Result Text
with_scheme raw =
    if not (has_scheme raw)
    then ok (codes "redis://" ++ raw)
    else if not (is_redis_scheme raw)
    then throws (codes "Redis URL must start with redis:// or rediss://")
    else ok raw

unfoldable pub normalize_redis_url : Text → Result Text
normalize_redis_url value =
    with_scheme (trim (if nonempty value then value else codes "redis://127.0.0.1:6379"))

ok-injective : (a b : Text) → ok a ≡ ok b → a ≡ b
ok-injective a b h = cc h

with_scheme-redis : (raw u : Text) → with_scheme raw ≡ ok u → is_redis_scheme u ≡ true
unfolding with_scheme is_redis_scheme starts_with lower
with_scheme-redis raw u h = elim (Bool-cases (has_scheme raw)) [
  | inl e ↦ elim (Bool-cases (is_redis_scheme raw)) [
    | inl r ↦ subst (λ v. is_redis_scheme v ≡ true) (ok-injective raw u (rw (e, r) at h)) r
    | inr r ↦ absurd (cc (rw (e, r) at h))
  ]
  | inr e ↦
      subst (λ v. is_redis_scheme v ≡ true) (ok-injective (codes "redis://" ++ raw) u (rw e at h))
        refl
]

-- Every URL that is accepted starts with redis:// or rediss://, in any case of its letters.
pub normalize_redis_url-scheme :
    (value u : Text) → normalize_redis_url value ≡ ok u → is_redis_scheme u ≡ true
unfolding normalize_redis_url
normalize_redis_url-scheme value u h = with_scheme-redis _ u h
