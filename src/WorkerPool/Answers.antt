-- ===== src/WorkerPool/Answers.antt =====
-- Whether responses to a GET of a key have what the requests before it write.
use lite_store.Base.{◌≡◌, refl, Option, List, [], ◌∷◌, ◌++◌}
use lite_store.Base.Text.{Text}
use lite_store.Types.{CommandName, CommandRequest, CommandResponse}
use lite_store.Commands.Contents.{wrote, written}
use lite_store.Commands.Writes.{found_response}

-- Each response to a GET of the key has what the requests before it write, after this value.
pub IsAnswered : Text → Option Text → List CommandRequest → List CommandResponse → Type 0
IsAnswered k o requests [] = Unit
IsAnswered k o [] (r ∷ responses) = ⊥
IsAnswered k o (request ∷ requests) (r ∷ responses) =
    (request.command ≡ CommandName.get → request.args ≡ k ∷ [] → r ≡ found_response request o)
    × IsAnswered k (wrote k request.command request.args o) requests responses

-- The same of all these requests.
pub AreAnswered : Text → Option Text → List CommandRequest → List CommandResponse → Type 0
AreAnswered k o [] [] = Unit
AreAnswered k o [] (r ∷ responses) = ⊥
AreAnswered k o (request ∷ requests) [] = ⊥
AreAnswered k o (request ∷ requests) (r ∷ responses) =
    (request.command ≡ CommandName.get → request.args ≡ k ∷ [] → r ≡ found_response request o)
    × AreAnswered k (wrote k request.command request.args o) requests responses

-- no request, and no response
pub AreAnswered-nil : (k : Text) (o : Option Text) → AreAnswered k o [] []
unfolding AreAnswered
AreAnswered-nil k o = tt

pub AreAnswered-more :
    (k : Text) (requests : List CommandRequest) (responses : List CommandResponse) (o : Option Text)
    (request : CommandRequest) (r : CommandResponse)
    → AreAnswered k o requests responses
    → (request.command ≡ CommandName.get
        → request.args ≡ k ∷ []
        → r ≡ found_response request (written k requests o))
    → AreAnswered k o (requests ++ request ∷ []) (responses ++ r ∷ [])
unfolding written AreAnswered
AreAnswered-more k [] [] o request r all now = (now, tt)
AreAnswered-more k [] (_ ∷ _) o request r all now = absurd all
AreAnswered-more k (_ ∷ _) [] o request r all now = absurd all
AreAnswered-more k (q ∷ requests) (_ ∷ responses) o request r all now =
    (all.0, AreAnswered-more k requests responses (wrote k q.command q.args o) request r all.1 now)

pub AreAnswered-IsAnswered :
    (k : Text) (requests later : List CommandRequest) (responses waiting : List CommandResponse)
    (o : Option Text)
    → AreAnswered k o requests (responses ++ waiting)
    → IsAnswered k o (requests ++ later) responses
unfolding IsAnswered AreAnswered
AreAnswered-IsAnswered k requests later [] waiting o all = tt
AreAnswered-IsAnswered k [] later (_ ∷ _) waiting o all = absurd all
AreAnswered-IsAnswered k (q ∷ requests) later (_ ∷ responses) waiting o all = (
  all.0,
  AreAnswered-IsAnswered k requests later responses waiting (wrote k q.command q.args o) all.1,
)

pub written-more :
    (k : Text) (requests : List CommandRequest) (request : CommandRequest) (o : Option Text)
    → written k (requests ++ request ∷ []) o
      ≡ wrote k request.command request.args (written k requests o)
unfolding written
written-more k [] request o = refl
written-more k (q ∷ requests) request o =
    written-more k requests request (wrote k q.command q.args o)
