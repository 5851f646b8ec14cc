-- ===== src/Replies.antt =====
-- include/boost/mqtt5/impl/replies.hpp: the operations that wait for a reply of the broker, and the
-- replies that came before anybody waited for them.
--
-- A completion handler is a number. An operation returns the new state and the completions that it
-- makes in order; `complete_post` and `asio::post` complete later, and are told apart. The clock is
-- an argument, in seconds.
pub mod Laws
pub mod Delivery
use async_mqtt.Base.{
  ℕ, ◌+◌, ◌-◌, Bool, true, false, not, ◌&&◌, ◌||◌, List, [], ◌∷◌, ◌++◌, map, ltb, ◌==◌,
  if◌then◌else◌, Option, none, some,
}

pub data Error : Type 0 where
  success operation_aborted try_again no_recovery other_error : Error

pub record ReplyHandler : Type 0 where
  pub handler : ℕ
  pub code : ℕ
  pub packet_id : ℕ
  pub ts : ℕ

pub record FastReply : Type 0 where
  pub code : ℕ
  pub packet_id : ℕ
  pub packet : List ℕ

pub record Replies : Type 0 where
  pub handlers : List ReplyHandler
  pub fast_replies : List FastReply

-- `posted` says that the handler runs later.
pub record Completion : Type 0 where
  pub handler : ℕ
  pub error : Error
  pub packet : List ℕ
  pub posted : Bool

abbrev pub max_reply_time : ℕ
max_reply_time = 20

-- control_code_e::pubrel
abbrev pub pubrel_code : ℕ
pubrel_code = 0x60

abbrev pub complete : Error → List ℕ → ReplyHandler → Completion
complete ec packet h = record { handler = h.handler; error = ec; packet = packet; posted = false }

abbrev pub complete_post : Error → ReplyHandler → Completion
complete_post ec h = record { handler = h.handler; error = ec; packet = []; posted = true }

abbrev pub fits : ℕ → ℕ → ReplyHandler → Bool
fits code pid h = (h.code == code) && (h.packet_id == pid)

-- `find_handler`, and the vector without the element that it finds.
unfoldable pub find_handler : ℕ → ℕ → List ReplyHandler → Option ReplyHandler
find_handler code pid [] = none
find_handler code pid (h ∷ hs) = if fits code pid h then some h else find_handler code pid hs

unfoldable pub erase_handler : ℕ → ℕ → List ReplyHandler → List ReplyHandler
erase_handler code pid [] = []
erase_handler code pid (h ∷ hs) = if fits code pid h then hs else (h ∷ erase_handler code pid hs)

abbrev pub fast_fits : ℕ → ℕ → FastReply → Bool
fast_fits code pid f = (f.code == code) && (f.packet_id == pid)

unfoldable pub find_fast_reply : ℕ → ℕ → List FastReply → Option FastReply
find_fast_reply code pid [] = none
find_fast_reply code pid (f ∷ fs) =
    if fast_fits code pid f then some f else find_fast_reply code pid fs

unfoldable pub erase_fast_reply : ℕ → ℕ → List FastReply → List FastReply
erase_fast_reply code pid [] = []
erase_fast_reply code pid (f ∷ fs) =
    if fast_fits code pid f then fs else (f ∷ erase_fast_reply code pid fs)

-- A waiting handler for the same reply is aborted first.
unfoldable pub drop_duplicate : ℕ → ℕ → Replies → Replies × List Completion
drop_duplicate code pid r = elim (find_handler code pid r.handlers) [
  | none ↦ (r, [])
  | some dup ↦ (
    record r { handlers = erase_handler code pid r.handlers },
    complete_post operation_aborted dup ∷ [],
  )
]

-- The rest of `async_wait_reply`: a reply that is there already is posted, else the handler waits.
unfoldable pub wait_or_take : ℕ → ℕ → ℕ → ℕ → Replies → Replies × List Completion
wait_or_take now code pid handler r = elim (find_fast_reply code pid r.fast_replies) [
  | none ↦ (
    record r {
      handlers =
          r.handlers ++ (record { handler = handler; code = code; packet_id = pid; ts = now } ∷ []);
    },
    [],
  )
  | some f ↦ (
    record r { fast_replies = erase_fast_reply code pid r.fast_replies },
    record { handler = handler; error = success; packet = f.packet; posted = true } ∷ [],
  )
]

unfoldable pub async_wait_reply : ℕ → ℕ → ℕ → ℕ → Replies → Replies × List Completion
async_wait_reply now code pid handler r =
    let (r', aborted) = drop_duplicate code pid r in
    let (r'', done) = wait_or_take now code pid handler r' in (r'', aborted ++ done)

unfoldable pub dispatch : Error → ℕ → ℕ → List ℕ → Replies → Replies × List Completion
dispatch ec code pid packet r = elim (find_handler code pid r.handlers) [
  | none ↦ (
    record r {
      fast_replies =
          r.fast_replies ++ (record { code = code; packet_id = pid; packet = packet } ∷ []);
    },
    [],
  )
  | some h ↦ (record r { handlers = erase_handler code pid r.handlers }, complete ec packet h ∷ [])
]

unfoldable pub resend_unanswered : Replies → Replies × List Completion
resend_unanswered r = (record r { handlers = [] }, map (complete try_again []) r.handlers)

unfoldable pub cancel_unanswered : Replies → Replies × List Completion
cancel_unanswered r = (record r { handlers = [] }, map (complete_post operation_aborted) r.handlers)

unfoldable pub any_expired_in : ℕ → List ReplyHandler → Bool
any_expired_in now [] = false
any_expired_in now (h ∷ hs) = ltb max_reply_time (now - h.ts) || any_expired_in now hs

unfoldable pub any_expired : ℕ → Replies → Bool
any_expired now r = any_expired_in now r.handlers

unfoldable pub clear_fast_replies : Replies → Replies
clear_fast_replies r = record r { fast_replies = [] }

-- The loop of `clear_pending_pubrels`: the handlers that stay, and the completions of the others.
unfoldable pub clear_pubrels_in : List ReplyHandler → List ReplyHandler × List Completion
clear_pubrels_in [] = ([], [])
clear_pubrels_in (h ∷ hs) =
    let (stay, done) = clear_pubrels_in hs in
    if h.code == pubrel_code
    then (stay, complete operation_aborted [] h ∷ done)
    else (h ∷ stay, done)

unfoldable pub clear_pending_pubrels : Replies → Replies × List Completion
clear_pending_pubrels r =
    let (stay, done) = clear_pubrels_in r.handlers in (record r { handlers = stay }, done)
