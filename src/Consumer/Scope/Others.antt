-- ===== src/Consumer/Scope/Others.antt =====
-- The other threads of examples/advconsumer.cpp, and what they leave as it is: the messages on top of those
-- that were taken, and the tags that count as acknowledged.
use rabbitmq_cxx.Base.{map, ℕ, ◌≡◌, refl, List, [], ◌∷◌, ◌++◌}
use rabbitmq_cxx.Consumer.{Sent, Tag, Message, System}
use rabbitmq_cxx.Consumer.Order.{waiting, receive-waiting}
use rabbitmq_cxx.Consumer.Steps.{Step}
use rabbitmq_cxx.Consumer.Scope.Sent.{ids}
use rabbitmq_cxx.Consumer.Scope.Refines.{sent_of, front_of, after_ack}

pub waiting-append :
    (xs ys : List Message) (taken : List Tag)
    → waiting (xs ++ ys) taken ≡ waiting ys (waiting xs taken)
waiting-append [] ys taken = refl
waiting-append (x ∷ xs) ys taken = waiting-append xs ys (x.tag ∷ taken)

-- The tags that were acknowledged, the newest first.
abbrev pub sent_ids : System → List ℕ
sent_ids s = map (λ (x : Sent). x.tag.id) s.acknowledged

pub sent_ids-ack :
    (s : System) → sent_ids (after_ack s) ≡ ids (front_of s.consumer.ack_queue) ++ sent_ids s
sent_ids-ack s = go s.consumer.ack_queue
  where
    go :
        (q : List Tag)
        → map (λ (x : Sent). x.tag.id) (sent_of s.session q ++ s.acknowledged)
          ≡ ids (front_of q) ++ sent_ids s
    go [] = refl
    go (t ∷ ts) = refl

-- A step of another thread.
abbrev pub IsOther : System → System → Type 0
IsOther s t = Step s t × (t.worker ≡ s.worker)

-- It leaves the session, the messages on top of those that were taken, and what was acknowledged.
pub others :
    {s t : System}
    → Step s t
    → t.worker ≡ s.worker
    → (t.session ≡ s.session)
      × (waiting t.consumer.messages t.taken ≡ waiting s.consumer.messages s.taken)
      × (sent_ids t ≡ sent_ids s)
others {s} (Step.take_message ls rs e) same = (refl, receive-waiting s.consumer s.taken, refl)
others (Step.lock_receive ls rs e u) same = (refl, refl, refl)
others (Step.lock_acknowledge ls rs t e u) same = (refl, refl, refl)
others (Step.hand_back ls rs t e) same = (refl, refl, refl)
others (Step.give_up ls rs e) same = (refl, refl, refl)
others Step.halt same = (refl, refl, refl)
others (Step.enter w r) same = cc
others (Step.leave w r) same = cc
others (Step.connect w) same = cc
others (Step.connect_fails w) same = cc
others (Step.poll w r) same = cc
others (Step.quit w r) same = cc
others (Step.timeout w) same = cc
others (Step.poll_fails w) same = cc
others (Step.envelope m w e) same = cc
others (Step.emplace m w) same = cc
others (Step.lock_acks w u) same = cc
others (Step.ack_none w q) same = cc
others (Step.ack_front t ts w q) same = cc
others (Step.ack_fails t ts w q) same = cc
others (Step.lock_clear w u) same = cc
others (Step.clear_messages w) same = cc
others (Step.lock_clear_acks w u) same = cc
others (Step.clear_acks w) same = cc
