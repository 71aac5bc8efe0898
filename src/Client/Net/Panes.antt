-- ===== src/Client/Net/Panes.antt =====
-- What becomes of a pane that asks for a Browser connection (src/client.cpp).
use remy.Base.{
  ℕ, ◌≡◌, refl, ap, ◌∙◌, Bool, true, false, not, [], ◌∷◌, ◌++◌, Option, none, some, ==_refl, ◌⊎◌,
  inl, inr, Option-cases,
}
use remy.Base.Map.{get, put, get-put}
use remy.Utils.Duration.{codes}
use remy.Protocol.Control.{browser_connected}
use remy.View.Events.{Event, posted_error, posted_warning}
use remy.Client.Net.{ask_browser, Net, Task, browser_reader, Reader, new_reader, reader_of, post}
use remy.Client.Net.Control.{or_first, pane_of, browser_refused, handle_server_msg, run_action}
use remy.Client.Net.Readers.{emplace, reader_start, start_task}

-- The pane's request has been sent under this token.
abbrev pub asked : Bool → ℕ → ℕ → Net → Net
asked pane host_id client_token net = run_action client_token (ask_browser pane host_id) net

-- The server's answer with a token has been read, too.
abbrev pub accepted : Bool → ℕ → ℕ → ℕ → Net → Net
accepted pane host_id client_token server_token net =
    handle_server_msg (browser_connected client_token (some server_token))
      (asked pane host_id client_token net)

module _ (pane : Bool) (host_id client_token server_token : ℕ) (net : Net) where
  after : Net
  unfolding pane_of run_action handle_server_msg
  after = (pane_of client_token (accepted pane host_id client_token server_token net)).1

  its_pane : get client_token (put client_token pane net.browser_ids) ≡ some pane
  its_pane = get-put client_token client_token pane net.browser_ids ∙ rw (==_refl client_token)

  pane_of-accepted :
      (pane_of client_token (accepted pane host_id client_token server_token net)).0 ≡ pane
  unfolding pane_of run_action handle_server_msg
  pane_of-accepted = ap or_first its_pane

  reader_of-after : (other : Bool) → reader_of other after ≡ reader_of other net
  unfolding after pane_of run_action handle_server_msg
  reader_of-after false = refl
  reader_of-after true = refl

  posted-after : after.posted ≡ net.posted
  unfolding after pane_of run_action handle_server_msg
  posted-after = refl

  refused :
      (handle_server_msg
        (browser_connected client_token none)
        (asked pane host_id client_token net)).posted
      ≡ net.posted ++ posted_error pane ∷ []
  unfolding handle_server_msg browser_refused pane_of run_action
  refused = ap (λ o. net.posted ++ posted_error (or_first o) ∷ []) its_pane

  started :
      {o : Option Reader}
      → reader_of pane net ≡ o
      → start_task
          (browser_reader client_token server_token)
          (accepted pane host_id client_token server_token net)
        ≡ emplace pane server_token o after
  unfolding start_task reader_start after
  started e =
      ap (λ b. emplace b server_token (reader_of b after) after) pane_of-accepted
      ∙ ap (λ o. emplace pane server_token o after) (reader_of-after pane ∙ e)

  spawns :
      (accepted pane host_id client_token server_token net).spawned
      ≡ net.spawned ++ browser_reader client_token server_token ∷ []
  unfolding handle_server_msg run_action
  spawns = refl

emplace_free :
    (pane : Bool) (token : ℕ) (net : Net)
    → ((emplace pane token none net).0 ≡ some pane)
      × (reader_of pane (emplace pane token none net).1 ≡ some (new_reader token))
      × (reader_of (not pane) (emplace pane token none net).1 ≡ reader_of (not pane) net)
      × ((emplace pane token none net).1.posted ≡ net.posted)
emplace_free false token net = (refl, refl, refl, refl)
emplace_free true token net = (refl, refl, refl, refl)

abbrev no_room : Event
no_room = posted_warning (codes "Can't allocate new connection")

pub reader_of-post :
    (event : Event) (other : Bool) (net : Net)
    → reader_of other (post event net) ≡ reader_of other net
reader_of-post event false net = refl
reader_of-post event true net = refl

-- What the server's answer to a pane's request leads to. If it refuses, an error is posted for that
-- pane. If it sends a token, one coroutine is started; where this begins, and the pane has no
-- reader, the pane gets a reader with this token, the other pane keeps what it has, and nothing is
-- posted. If the pane still has a reader, a warning is posted and both panes keep what they have.
pub browser_answer :
    (pane : Bool) (host_id client_token server_token : ℕ) (net : Net)
    → let sent = asked pane host_id client_token net in
      let answered = accepted pane host_id client_token server_token net in
      ((handle_server_msg (browser_connected client_token none) sent).posted
        ≡ net.posted ++ posted_error pane ∷ [])
      × ((task : Task) × (answered.spawned ≡ net.spawned ++ task ∷ [])
          × let (given, t) = start_task task answered in
            ((reader_of pane net ≡ none)
                × (given ≡ some pane)
                × (reader_of pane t ≡ some (new_reader server_token))
                × (reader_of (not pane) t ≡ reader_of (not pane) net)
                × (t.posted ≡ net.posted)
              ⊎ ((r : Reader) × (reader_of pane net ≡ some r)
                  × (given ≡ none)
                  × (reader_of pane t ≡ some r)
                  × (reader_of (not pane) t ≡ reader_of (not pane) net)
                  × (t.posted
                      ≡ net.posted
                        ++ posted_warning (codes "Can't allocate new connection") ∷ []))))
browser_answer pane host_id client_token server_token net =
    let t = after pane host_id client_token server_token net in
    let kept = reader_of-after pane host_id client_token server_token net in
    (
      refused pane host_id client_token server_token net,
      (
        browser_reader client_token server_token,
        spawns pane host_id client_token server_token net,
        elim (Option-cases (reader_of pane net)) [
          | inl free ↦
              let (given, mine, other, quiet) = emplace_free pane server_token t in
              rw (started pane host_id client_token server_token net free) (
                inl (
                  free,
                  given,
                  mine,
                  other ∙ kept (not pane),
                  quiet ∙ posted-after pane host_id client_token server_token net,
                ))
          | inr (r, taken) ↦ rw (started pane host_id client_token server_token net taken) (
              inr (
                r,
                taken,
                refl,
                reader_of-post no_room pane t ∙ kept pane ∙ taken,
                reader_of-post no_room (not pane) t ∙ kept (not pane),
                ap (λ events. events ++ no_room ∷ [])
                    (posted-after pane host_id client_token server_token net),
              ))
        ],
      ),
    )
