-- ===== src/Router.antt =====
-- The routing of keys to workers, src/router.py.
use lite_store.Base.{
  ℕ, ◌+◌, ◌*◌, ◌%◌, ◌<◌, ◌≡◌, refl, subst, Option, none, some, List, [], ◌∷◌, foldl, length, get_or,
  take, arith, Result, ok, raised,
}
use lite_store.Base.Text.{Text}
use lite_store.Types.{CommandName, CommandRequest, KeyRoute}
use native.Mathlib.Nat.{mod-lt}

-- key.encode("utf-8") and hashlib.sha256(data).digest()
pub record Hashing : Type 0 where
  pub encode : Text → List ℕ
  pub sha256 : List ℕ → List ℕ

-- int.from_bytes(data, byteorder="big", signed=False)
abbrev pub from_bytes : List ℕ → ℕ
from_bytes = foldl (λ n byte. n * 256 + byte) 0

pub record Router : Type 0 where
  pub worker_ids : List Text
  pub partition_count : ℕ
  pub default_worker : Text

abbrev pub routing : Text → List Text → Router
routing w ids = record {
  worker_ids = w ∷ ids;
  partition_count = length (w ∷ ids);
  default_worker = w;
}

-- DeterministicHashRouter(worker_ids); the error is its ValueError
unfoldable pub make_router : List Text → Result (Unit {0}) Router
make_router [] = raised tt
make_router (w ∷ ids) = ok (routing w ids)

router_made :
    (w : Text) (ids : List Text) {r : Router} → make_router (w ∷ ids) ≡ ok r → routing w ids ≡ r
unfolding make_router
router_made w ids made = ground arith

-- _extract_key_from_request
unfoldable pub extract_key : CommandName → List Text → Option Text
extract_key CommandName.set (key ∷ _) = some key
extract_key CommandName.get (key ∷ _) = some key
extract_key CommandName.del (key ∷ _) = some key
extract_key CommandName.expire (key ∷ _) = some key
extract_key CommandName.ttl (key ∷ _) = some key
extract_key _ _ = none

module _ (h : Hashing) where
  -- _stable_partition_for_key
  unfoldable pub stable_partition_for_key : Text → ℕ → ℕ
  stable_partition_for_key key partition_count =
      from_bytes (take 8 (h.sha256 (h.encode key))) % partition_count

  -- for a key that UTF-8 encodes, which one without lone surrogates is
  unfoldable pub route_key : Router → Text → KeyRoute
  unfolding stable_partition_for_key
  route_key r key =
      let partition_id = stable_partition_for_key key r.partition_count in
      record { partition_id = partition_id; worker_id = get_or r.worker_ids partition_id [] }

  -- the branches of `route_request`, by the extracted key
  unfoldable pub route_extracted : Router → Option Text → KeyRoute
  unfolding route_key
  route_extracted r none = record { partition_id = 0; worker_id = r.default_worker }
  route_extracted r (some key) = route_key r key

  unfoldable pub route_request : Router → CommandRequest → KeyRoute
  unfolding route_extracted extract_key
  route_request r request = route_extracted r (extract_key request.command request.args)

  -- A route names a worker of the router, the one at the index of its partition.
  abbrev pub IsRoute : Router → KeyRoute → Type 0
  IsRoute r route =
      (route.partition_id < length r.worker_ids)
      × (route.worker_id ≡ get_or r.worker_ids route.partition_id [])

  route_extracted-IsRoute :
      (w : Text) (ids : List Text) (o : Option Text)
      → IsRoute (routing w ids) (route_extracted (routing w ids) o)
  unfolding route_extracted
  route_extracted-IsRoute w ids none = (omega arith, refl)
  route_extracted-IsRoute w ids (some key) =
      (mod-lt (from_bytes (take 8 (h.sha256 (h.encode key)))) (omega arith), refl)

  -- A router that was constructed sends every request to a partition below the number of its
  -- workers, and to the worker at the index of that partition.
  pub route_request-IsRoute :
      (ids : List Text) {r : Router} (request : CommandRequest)
      → make_router ids ≡ ok r
      → IsRoute r (route_request r request)
  unfolding route_request make_router
  route_request-IsRoute [] request made = cc
  route_request-IsRoute (w ∷ ids) request made =
      subst (λ r. IsRoute r (route_request r request)) (router_made w ids made)
        (route_extracted-IsRoute w ids (extract_key request.command request.args))
