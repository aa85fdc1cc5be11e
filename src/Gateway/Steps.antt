-- ===== src/Gateway/Steps.antt =====
-- Steps over the gateway that change nothing but the frames to one connection and the queue of
-- broadcasts, and sequences of such steps.
use zerogame.Shared.{◌≤◌, length, ◌≡◌, refl, sym, ◌∙◌, ap, List, [], ◌∷◌, ◌++◌, All}
use mathlib.Core.List.{append_assoc, append-nil}
use zerogame.Shared.Effect.{Outcome, returned, panicked, after}
use zerogame.Message.{Bytes}
use zerogame.Message.Failure.{Result, ok, err, Call}
use zerogame.Connection.{Conn, ConnectionManager}
use zerogame.Broadcaster.{channel_size}
use zerogame.Gateway.{Gateway, G, ◌>>=◌, next_of, lifted, lift}

abbrev pub SentTo : Conn → List (Conn × Bytes) → List (Conn × Bytes) → Type 0
SentTo conn before now =
    (frames : List (Conn × Bytes)) × (now ≡ before ++ frames) × All (λ f. f.0 ≡ conn) frames

-- The channel stays open or closed, and never holds more than it has room for.
abbrev pub Queued : Gateway → Gateway → Type 0
Queued g g' =
    (g'.message_ch_closed ≡ g.message_ch_closed)
    × (length g.message_ch ≤ channel_size → length g'.message_ch ≤ channel_size)

-- The manager stays as it is, and every frame that is sent goes to the connection.
abbrev pub Answers : Conn → Gateway → Gateway → Type 0
Answers conn g g' = (g'.conn_mgr ≡ g.conn_mgr) × SentTo conn g.sent g'.sent × Queued g g'

All-append :
    (conn : Conn) (xs ys : List (Conn × Bytes))
    → All (λ f. f.0 ≡ conn) xs
    → All (λ f. f.0 ≡ conn) ys
    → All (λ f. f.0 ≡ conn) (xs ++ ys)
All-append conn [] ys p q = q
All-append conn (x ∷ xs) ys p q = (p.0, All-append conn xs ys p.1 q)

pub Answers-trans :
    (conn : Conn) (a b c : Gateway) → Answers conn a b → Answers conn b c → Answers conn a c
Answers-trans conn a b c (m, (xs, e, p), (o, l)) (n, (ys, f, q), (o', l')) = (
  n ∙ m,
  (xs ++ ys, f ∙ ap (λ l. l ++ ys) e ∙ append_assoc a.sent xs ys, All-append conn xs ys p q),
  (o' ∙ o, λ fits. l' (l fits)),
)

-- Nothing is sent, and the manager stays.
pub Answers-silent :
    (conn : Conn) (a b : Gateway)
    → b.conn_mgr ≡ a.conn_mgr
    → b.sent ≡ a.sent
    → Queued a b
    → Answers conn a b
Answers-silent conn a b m e q = (m, ([], e ∙ sym (append-nil a.sent), tt), q)

pub Answers-same : (conn : Conn) (g : Gateway) → Answers conn g g
Answers-same conn g = Answers-silent conn g g refl refl (refl, λ fits. fits)

-- The whole of a handler, or of the rest of one, answers: from every state.
pub record AnswersAll {A : Type 0} (conn : Conn) (m : G A) : Type 0 where
  pub step : (g : Gateway) → Answers conn g (after (m g))

next_of-Answers :
    {A B : Type 0} (conn : Conn) (f : A → G B) (g : Gateway) (r : Outcome (Result A) × Gateway)
    → Answers conn g (after r)
    → ((a : A) → AnswersAll conn (f a))
    → Answers conn g (after (next_of r f))
next_of-Answers conn f g (returned (ok a), g') e k =
    Answers-trans conn g g' (after (f a g')) e ((k a).step g')
next_of-Answers conn f g (returned (err x), g') e k = e
next_of-Answers conn f g (panicked, g') e k = e

-- A step that answers, and the rest.
pub bind-AnswersAll :
    {A B : Type 0} {conn : Conn} {m : G A} {f : A → G B}
    → AnswersAll conn m
    → ((a : A) → AnswersAll conn (f a))
    → AnswersAll conn (m >>= f)
bind-AnswersAll {conn = conn} {m = m} {f = f} e k = record {
  step = λ g. next_of-Answers conn f g (m g) (e.step g) k;
}

-- A call of the parser.
pub lift-AnswersAll : {A : Type 0} {conn : Conn} (c : Call A) → AnswersAll conn (lift c)
lift-AnswersAll {conn = conn} c = record { step = Answers-same conn }

-- After a call of the manager, steps that answer leave what the call left.
pub lifted-Answers :
    {A B : Type 0} (conn : Conn) (f : A → G B) (r : Outcome A × ConnectionManager) (g : Gateway)
    → ((a : A) → AnswersAll conn (f a))
    → Answers conn (record g { conn_mgr = r.1 }) (after (next_of (lifted r g) f))
lifted-Answers conn f (returned a, cm) g k = (k a).step (record g { conn_mgr = cm })
lifted-Answers conn f (panicked, cm) g k = Answers-same conn (record g { conn_mgr = cm })
