-- ===== src/Client/Host/Answers.antt =====
-- What the browsed host (src/client.cpp) answers, in whatever order its two coroutines and its peer
-- go on.
use mathlib.Core.Option.{some-injective, none-ne-some}
use remy.Base.{
  ℕ, ◌<◌, ◌≡◌, refl, sym, ap, subst, ◌∙◌, List, [], ◌∷◌, ◌++◌, append_assoc, append-nil, Option,
  none, some, take, drop, take-append-drop, All, length, map,
}
use remy.Serde.Bytes.{Bytes, ◌>>=◌, pod-RoundTrips, recv_then, recv_byte-nil}
use remy.Protocol.Loop.{
  Protocol, send_message, send_messages, read_loop, closed, read_loop-send_messages,
}
use remy.Protocol.Browser.{
  ReaderMsg, HostMsg, FitsReaderMsg, FitsHostMsg, recv_reader_msg, reader_msgs, host_msgs,
  reader_msg_type, send_reader_msg, reader_msg_type_fits, reader_msg_roundtrip,
}
use remy.Client.{FileSystem}
use remy.Client.Host.{
  handle, recv_request, Run, running, threw, Host, new_host, ask, offer, hand_over, answer,
  answer_bytes, Step, asks, closes, reads, hands_over, answers, answer_fails, incoming_returns,
  Reach, here, next,
}

abbrev to_list : Option ReaderMsg → List ReaderMsg
to_list none = []
to_list (some m) = m ∷ []

recv_request-send :
    (m : ReaderMsg) (rest : Bytes)
    → FitsReaderMsg m
    → recv_request (send_message reader_msgs m ++ rest) ≡ some (some m, rest)
unfolding recv_request send_message
recv_request-send m rest h = rw append_assoc (
    recv_then (pod-RoundTrips 1) recv_reader_msg (reader_msg_type m) (send_reader_msg m ++ rest)
      (reader_msg_type_fits m) (reader_msg_roundtrip m rest h))

recv_request-nil : recv_request [] ≡ none
unfolding recv_request
recv_request-nil = rw (recv_byte-nil, ◌>>=◌)

send_messages-snoc :
    {M : Type 0} (p : Protocol M) (ms : List M) (m : M)
    → send_messages p (ms ++ m ∷ []) ≡ send_messages p ms ++ send_message p m
unfolding send_messages
send_messages-snoc p [] m = append-nil (send_message p m)
send_messages-snoc p (n ∷ ms) m =
    ap (λ bs. send_message p n ++ bs) (send_messages-snoc p ms m)
    ∙ sym (append_assoc (send_message p n) (send_messages p ms) (send_message p m))

All-snoc :
    {A : Type 0} (P : A → Type 0) (xs : List A) (x : A) → All P xs → P x → All P (xs ++ x ∷ [])
All-snoc P [] x h p = (p, tt)
All-snoc P (y ∷ xs) x h p = (h.0, All-snoc P xs x h.1 p)

-- A request that is read is the first of those that wait.
read_first :
    (ms : List ReaderMsg) (request : Option ReaderMsg) (rest : Bytes)
    → All FitsReaderMsg ms
    → recv_request (send_messages reader_msgs ms) ≡ some (request, rest)
    → (others : List ReaderMsg) × All FitsReaderMsg others
      × (ms ≡ to_list request ++ others)
      × (rest ≡ send_messages reader_msgs others)
unfolding send_messages
read_first [] request rest f e = absurd (none-ne-some _ (sym recv_request-nil ∙ e))
read_first (m ∷ ms) request rest f e =
    let same =
      some-injective (request, rest) (some m, send_messages reader_msgs ms)
        (sym e ∙ recv_request-send m (send_messages reader_msgs ms) f.0) in
    (ms, f.1, ap (λ x. to_list x.0 ++ ms) (sym same), ap (λ x. x.1) same)

module _ {S : Type 0} (fs : FileSystem S) where
  -- The requests one after the other: the answers, and the files at the end.
  abbrev pub answer_all : List ReaderMsg → S → List HostMsg × S
  answer_all [] s = ([], s)
  answer_all (m ∷ ms) s =
      let (reply, t) = handle fs m s in let (replies, u) = answer_all ms t in (reply ∷ replies, u)

  -- The requests are worked on in their order, and none is lost or done twice. `waiting` are those
  -- that no one has read, `lost` is what a failed write has not written.
  record IsOrderly (s : S) (h : Host S) : Type 0 where
    waiting : List ReaderMsg
    lost : Bytes
    fits : All FitsReaderMsg waiting
    unread : h.arrived ≡ send_messages reader_msgs waiting
    order : h.sent ≡ h.handled ++ (to_list h.taken ++ (to_list h.offered ++ waiting))
    worked : h.files ≡ (answer_all h.handled s).1
    answered : h.written ++ lost ≡ send_messages host_msgs (answer_all h.handled s).0
    whole : h.outcoming ≡ running → lost ≡ []

  answer_all-snoc :
      (ms : List ReaderMsg) (m : ReaderMsg) (s : S)
      → answer_all (ms ++ m ∷ []) s ≡ (
        (answer_all ms s).0 ++ (handle fs m (answer_all ms s).1).0 ∷ [],
        (handle fs m (answer_all ms s).1).1,
      )
  answer_all-snoc [] m s = refl
  answer_all-snoc (n ∷ ms) m s =
      ap (λ (x : List HostMsg × S). ((handle fs n s).0 ∷ x.0, x.1))
        (answer_all-snoc ms m (handle fs n s).1)

  module _ (s : S) (h : Host S) (o : IsOrderly s h) where
    ask-IsOrderly : (m : ReaderMsg) → FitsReaderMsg m → IsOrderly s (ask m h)
    ask-IsOrderly m f = record {
      waiting = o.waiting ++ m ∷ [];
      lost = o.lost;
      fits = All-snoc FitsReaderMsg o.waiting m o.fits f;
      unread = rw o.unread (sym (send_messages-snoc reader_msgs o.waiting m));
      order = rw o.order (simp append_assoc);
      worked = o.worked;
      answered = o.answered;
      whole = o.whole;
    }

    answer-IsOrderly :
        (m : ReaderMsg) (bs rest : Bytes) (run : Run)
        → h.outcoming ≡ running
        → h.taken ≡ some m
        → bs ++ rest ≡ answer_bytes fs m h.files
        → (run ≡ running → rest ≡ [])
        → IsOrderly s (answer fs m bs run h)
    answer-IsOrderly m bs rest run r t e w = record {
      waiting = o.waiting;
      lost = rest;
      fits = o.fits;
      unread = o.unread;
      order =
          o.order
          ∙ ap (λ x. h.handled ++ (to_list x ++ (to_list h.offered ++ o.waiting))) t
          ∙ sym (append_assoc h.handled (m ∷ []) (to_list h.offered ++ o.waiting));
      worked = rw (o.worked, answer_all-snoc h.handled m s) refl;
      answered =
          append_assoc h.written bs rest
          ∙ ap (λ x. h.written ++ x) e
          ∙ ap (λ x. h.written ++ answer_bytes fs m x) o.worked
          ∙ ap (λ x. x ++ answer_bytes fs m (answer_all h.handled s).1)
              (sym (append-nil h.written) ∙ ap (λ x. h.written ++ x) (sym (o.whole r)) ∙ o.answered)
          ∙ sym (
              send_messages-snoc host_msgs (answer_all h.handled s).0
                (handle fs m (answer_all h.handled s).1).0)
          ∙ ap (λ (x : List HostMsg × S). send_messages host_msgs x.0)
              (sym (answer_all-snoc h.handled m s));
      whole = w;
    }

    hand_over-IsOrderly :
        (m : ReaderMsg) → h.offered ≡ some m → h.taken ≡ none → IsOrderly s (hand_over m h)
    hand_over-IsOrderly m w t = record {
      waiting = o.waiting;
      lost = o.lost;
      fits = o.fits;
      unread = o.unread;
      order =
          o.order
          ∙ ap (λ x. h.handled ++ (to_list x ++ (to_list h.offered ++ o.waiting))) t
          ∙ ap (λ x. h.handled ++ (to_list x ++ o.waiting)) w;
      worked = o.worked;
      answered = o.answered;
      whole = o.whole;
    }

    offer-IsOrderly :
        (request : Option ReaderMsg) (rest : Bytes)
        → h.offered ≡ none
        → recv_request h.arrived ≡ some (request, rest)
        → IsOrderly s (offer request rest h)
    offer-IsOrderly request rest w e =
        let (others, f, first, left) =
          read_first o.waiting request rest o.fits (ap recv_request (sym o.unread) ∙ e) in
        record {
          waiting = others;
          lost = o.lost;
          fits = f;
          unread = left;
          order =
              o.order
              ∙ ap (λ x. h.handled ++ (to_list h.taken ++ (to_list x ++ o.waiting))) w
              ∙ ap (λ x. h.handled ++ (to_list h.taken ++ x)) first;
          worked = o.worked;
          answered = o.answered;
          whole = o.whole;
        }

  Step-IsOrderly : {s : S} {h k : Host S} → Step fs h k → IsOrderly s h → IsOrderly s k
  Step-IsOrderly {s} {h} (asks m p f e) o = rw e (ask-IsOrderly s h o m f)
  Step-IsOrderly {s} {h} (closes e) o = rw e (record {
    waiting = o.waiting;
    lost = o.lost;
    fits = o.fits;
    unread = o.unread;
    order = o.order;
    worked = o.worked;
    answered = o.answered;
    whole = o.whole;
  })
  Step-IsOrderly {s} {h} (reads request rest i w r e) o =
      rw e (offer-IsOrderly s h o request rest w r)
  Step-IsOrderly {s} {h} (hands_over m i u w t e) o = rw e (hand_over-IsOrderly s h o m w t)
  Step-IsOrderly {s} {h} (answers m i u t e) o =
      rw e (answer-IsOrderly s h o m _ [] running u t (append-nil _) (λ r. refl))
  Step-IsOrderly {s} {h} (answer_fails m n i u p t e) o =
      let bs = answer_bytes fs m h.files in
      rw e (
        answer-IsOrderly s h o m (take n bs) (drop n bs) threw u t (take-append-drop n bs)
          (λ r. cc))
  Step-IsOrderly {s} {h} (incoming_returns i w p a e) o = rw e (record {
    waiting = o.waiting;
    lost = o.lost;
    fits = o.fits;
    unread = o.unread;
    order = o.order;
    worked = o.worked;
    answered = o.answered;
    whole = o.whole;
  })

  Reach-IsOrderly : {s : S} {h : Host S} → Reach fs (new_host s) h → IsOrderly s h
  unfolding send_messages
  Reach-IsOrderly here = record {
    waiting = [];
    lost = [];
    fits = tt;
    unread = refl;
    order = refl;
    worked = refl;
    answered = refl;
    whole = λ r. refl;
  }
  Reach-IsOrderly (next r t) = Step-IsOrderly t (Reach-IsOrderly r)

  -- Both coroutines are at work, and nothing is left to do.
  abbrev pub IsIdle : Host S → Type 0
  IsIdle h = (h.outcoming ≡ running) × (h.handled ≡ h.sent)

  Reach-trans : {h k l : Host S} → Reach fs h k → Reach fs k l → Reach fs h l
  Reach-trans r here = r
  Reach-trans r (next q t) = next (Reach-trans r q) t

  abbrev Finishes : Host S → Type 0
  Finishes h =
      (k : Host S) × Reach fs h k × IsIdle k × (k.sent ≡ h.sent) × (k.peer_open ≡ h.peer_open)

  before :
      {h k : Host S}
      → Step fs h k
      → k.sent ≡ h.sent
      → k.peer_open ≡ h.peer_open
      → Finishes k
      → Finishes h
  before t e o (l, r, i, q, p) = (l, Reach-trans (next here t) r, i, q ∙ e, p ∙ o)

  -- Without a callback and an offer, the requests are read one after the other.
  drains :
      (ms : List ReaderMsg) (h : Host S)
      → All FitsReaderMsg ms
      → h.arrived ≡ send_messages reader_msgs ms
      → h.sent ≡ h.handled ++ ms
      → h.incoming ≡ running
      → h.outcoming ≡ running
      → h.offered ≡ none
      → h.taken ≡ none
      → Finishes h
  unfolding send_messages
  drains [] h f e q i u w t = (h, here, (u, sym (append-nil h.handled) ∙ sym q), refl, refl)
  drains (m ∷ ms) h f e q i u w t =
      let rest = send_messages reader_msgs ms in
      let a = offer (some m) rest h in
      let b = hand_over m a in
      let over : Step fs a b = hands_over m i u refl t refl in
      let done : Step fs b _ = answers m i u refl refl in
      before (reads (some m) rest i w (ap recv_request e ∙ recv_request-send m rest f.0) refl) refl
        refl
        (before over refl refl (
          before done refl refl (
            drains ms (answer fs m (answer_bytes fs m b.files) running b) f.1 refl
              (q ∙ sym (append_assoc h.handled (m ∷ []) ms)) i refl refl refl)))

  module _ {s : S} where
    finish_idle :
        (h : Host S)
        → IsOrderly s h
        → h.incoming ≡ running
        → h.outcoming ≡ running
        → h.offered ≡ none
        → h.taken ≡ none
        → Finishes h
    finish_idle h o i u w t =
        drains o.waiting h o.fits o.unread
          (o.order
            ∙ ap (λ x. h.handled ++ (to_list x ++ (to_list h.offered ++ o.waiting))) t
            ∙ ap (λ x. h.handled ++ (to_list x ++ o.waiting)) w)
          i u w t

    finish_offered :
        (request : Option ReaderMsg) (h : Host S)
        → IsOrderly s h
        → h.incoming ≡ running
        → h.outcoming ≡ running
        → h.offered ≡ request
        → h.taken ≡ none
        → Finishes h
    finish_offered none h o i u w t = finish_idle h o i u w t
    finish_offered (some m) h o i u w t =
        let b = hand_over m h in
        let over : Step fs h b = hands_over m i u w t refl in
        let done : Step fs b _ = answers m i u refl refl in
        before over refl refl (
          before done refl refl
            (finish_idle _ (Step-IsOrderly done (Step-IsOrderly over o)) i refl refl refl))

    finish_taken :
        (request : Option ReaderMsg) (h : Host S)
        → IsOrderly s h
        → h.incoming ≡ running
        → h.outcoming ≡ running
        → h.taken ≡ request
        → Finishes h
    finish_taken none h o i u t = finish_offered h.offered h o i u refl t
    finish_taken (some m) h o i u t =
        let done = answers m i u t refl in
        before done refl refl (finish_offered h.offered _ (Step-IsOrderly done o) i refl refl refl)

  pub host_keeps_order :
      {s : S} {h : Host S} (fuel : ℕ)
      → Reach fs (new_host s) h
      → All FitsHostMsg (answer_all h.handled s).0
      → length (answer_all h.handled s).0 < fuel
      → h.outcoming ≡ running
      → (others : List ReaderMsg) × (h.sent ≡ h.handled ++ others)
        × (h.files ≡ (answer_all h.handled s).1)
        × (read_loop host_msgs fuel h.written ≡ (map some (answer_all h.handled s).0, closed))
  host_keeps_order {s} {h} fuel r f l u =
      let o = Reach-IsOrderly r in
      (
        to_list h.taken ++ (to_list h.offered ++ o.waiting),
        o.order,
        o.worked,
        ap (λ x. read_loop host_msgs fuel x)
              (sym (append-nil h.written) ∙ ap (λ x. h.written ++ x) (sym (o.whole u)) ∙ o.answered)
            ∙ read_loop-send_messages host_msgs fuel (answer_all h.handled s).0 f l,
      )

  -- Whatever has happened before: while both coroutines are at work, steps in which the peer
  -- neither asks nor closes answer all that it has asked. If the answers fit their types, the
  -- peer's loop then reads exactly the answer of each request, in the order of the requests, each
  -- worked on the files that the ones before it left.
  pub every_answer :
      {s : S} {h : Host S} (fuel : ℕ)
      → Reach fs (new_host s) h
      → h.incoming ≡ running
      → h.outcoming ≡ running
      → All FitsHostMsg (answer_all h.sent s).0
      → length (answer_all h.sent s).0 < fuel
      → (k : Host S) × Reach fs h k
        × (k.sent ≡ h.sent)
        × (k.peer_open ≡ h.peer_open)
        × (k.files ≡ (answer_all h.sent s).1)
        × (read_loop host_msgs fuel k.written ≡ (map some (answer_all h.sent s).0, closed))
  every_answer {s} {h} fuel r i u f l =
      let (k, q, (v, e), same, open_still) = finish_taken h.taken h (Reach-IsOrderly r) i u refl in
      let all : k.handled ≡ h.sent = e ∙ same in
      let (others, first, worked, read) =
        host_keeps_order fuel (Reach-trans r q)
          (subst (λ x. All FitsHostMsg (answer_all x s).0) (sym all) f)
          (subst (λ x. length (answer_all x s).0 < fuel) (sym all) l) v in
      (
        k,
        q,
        same,
        open_still,
        worked ∙ ap (λ x. (answer_all x s).1) all,
        read ∙ ap (λ x. (map some (answer_all x s).0, closed)) all,
      )
