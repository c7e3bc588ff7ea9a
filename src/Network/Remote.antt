-- ===== src/Network/Remote.antt =====
-- daemon/network_server_node.hpp with daemon/network_node.hpp: frames that go to the machine at the other end
-- and come back.
use mathlib.Core.List.{Memᴰ}
use mathlib.Core.Path.{subst}
use linux_opensource_univers.Prelude.{
  ltb, ◌==◌, if◌then◌else◌, if_both, length, All, ℕ, ◌≡◌, refl, sym, ap, ap₂, ◌∙◌, Bool, true, not,
  ◌&&◌, ◌||◌, Option, List, [], ◌∷◌, ◌++◌, map, map-append, arith,
}
use linux_opensource_univers.Shm.{AudioFrame}
use linux_opensource_univers.Network.{
  RemoteNode, Datagram, receive_all, header_size, net_magic, is_audio,
}
use linux_opensource_univers.Network.Order.{Tracks, consecutive, ahead}
use linux_opensource_univers.Network.Arrive.{Honest, delivered_in_order}
use linux_opensource_univers.Network.Server.{
  Server, serve, serve_all, listed, echo, answer, is_handshake,
}

find : {A : Type 0} {P : A → Type 0} {x : A} {l : List A} → All P l → Memᴰ x l → P x
find All.nil m = elim m [ ]
find {P = P} (All.cons p ps) (Memᴰ.head e) = subst P (sym e) p
find (All.cons p ps) (Memᴰ.tail m) = find ps m

All-append : {A : Type 0} {P : A → Type 0} {k l : List A} → All P k → All P l → All P (k ++ l)
All-append All.nil q = q
All-append (All.cons p ps) q = All.cons p (All-append ps q)

find-All :
    {A B : Type 0} {P : B → Type 0} {f : A → B} {l : List B} {xs : List A}
    → All P l
    → All (λ (a : A). Memᴰ (f a) l) xs
    → All (λ (a : A). P (f a)) xs
find-All all All.nil = All.nil
find-All all (All.cons m ms) = All.cons (find all m) (find-All all ms)

-- A datagram asks for a reply when it is whole, of this protocol, and audio or a handshake.
abbrev pub asks : {F : Type 0} → Datagram F → Bool
asks d =
    not (ltb d.length header_size)
    && d.header.magic == net_magic
    && (is_audio d.header.type || is_handshake d.header.type)

-- The ids of those that ask for a reply, in order
unfoldable pub asked : {F : Type 0} → List (ℕ × Datagram F) → List ℕ
asked [] = []
asked ((now, d) ∷ ds) = (if asks d then d.header.sequence_id ∷ [] else []) ++ asked ds

abbrev pub ids : {F : Type 0} → List (Datagram F) → List ℕ
ids l = map (λ d. d.header.sequence_id) l

module _ {W F : Type 0} (step : W → AudioFrame F → W × AudioFrame F)
    (process : AudioFrame F → AudioFrame F)
    (stateless : (w : W) (f : AudioFrame F) → (step w f).1 ≡ process f)
    (stream : ℕ → AudioFrame F) where
  abbrev processed : ℕ → AudioFrame F
  processed i = process (stream i)

  echo-Honest :
      (now : ℕ) (d : Datagram F) (w : W)
      → Honest stream d
      → is_audio d.header.type ≡ true
      → Honest processed (echo now d (step w d.payload).1)
  echo-Honest now d w h audio = record {
    id_in = h.id_in;
    bears = λ _. stateless w d.payload ∙ ap process (h.bears audio);
  }

  answer-Honest : (d : Datagram F) → Honest stream d → Honest processed (answer d)
  unfolding is_audio
  answer-Honest d h = record { id_in = h.id_in; bears = λ e. cc e }

  -- What the server sends back is of the processed stream.
  serve-Honest :
      (now : ℕ) (d : Datagram F) (server : Server W)
      → Honest stream d
      → All (Honest processed) (listed (serve step now d server).1)
  unfolding serve
  serve-Honest now d server h =
      let P : Server W × Option (Datagram F) → Type 0 = λ r. All (Honest processed) (listed r.1) in
      if_both P (ltb d.length header_size) (λ _. All.nil)
        (λ _.
          if_both P (not (d.header.magic == net_magic)) (λ _. All.nil)
            (λ _.
              if_both P (is_audio d.header.type)
                (λ audio. All.cons (echo-Honest now d server.local_worker h audio) All.nil)
                (λ _.
                  if_both P (is_handshake d.header.type) (λ _. All.cons (answer-Honest d h) All.nil)
                    (λ _. All.nil))))

  serve_all-Honest :
      (ds : List (ℕ × Datagram F)) (server : Server W)
      → All (λ (x : ℕ × Datagram F). Honest stream x.1) ds
      → All (Honest processed) (serve_all step ds server).1
  unfolding serve_all
  serve_all-Honest [] server All.nil = All.nil
  serve_all-Honest ((now, d) ∷ ds) server (All.cons h hs) =
      All-append (serve-Honest now d server h) (serve_all-Honest ds (serve step now d server).0 hs)

  serve-ids :
      (now : ℕ) (d : Datagram F) (server : Server W)
      → ids (listed (serve step now d server).1)
        ≡ (if asks d then d.header.sequence_id ∷ [] else [])
  unfolding serve
  serve-ids now d server = ground arith

  serve_all-ids :
      (ds : List (ℕ × Datagram F)) (server : Server W) → ids (serve_all step ds server).1 ≡ asked ds
  unfolding serve_all asked
  serve_all-ids [] server = refl
  serve_all-ids ((now, d) ∷ ds) server =
      map-append (λ (x : Datagram F). x.header.sequence_id) (listed (serve step now d server).1) _
      ∙ ap₂ (λ (k l : List ℕ). k ++ l) (serve-ids now d server)
          (serve_all-ids ds (serve step now d server).0)

  -- Datagrams with the frames of one stream, each under its number, reach the server in any order,
  -- and its worker makes of each frame what `process` does. It replies, in order and under the same
  -- id, to each whole datagram of this protocol that is audio or a handshake, and to no other.
  -- However many of the replies then reach a client that holds no frames but those of the processed
  -- stream, and in whatever order, lost, repeated or late ones and those to handshakes among them,
  -- the client hands on the processed frames that follow on the expected id, in order and with none
  -- left out, and the expected id is the one after them.
  pub processed_in_order :
      (ds arrivals : List (ℕ × Datagram F)) (server : Server W) (node : RemoteNode F)
      → All (λ (x : ℕ × Datagram F). Honest stream x.1) ds
      → All (λ (x : ℕ × Datagram F). Memᴰ x.1 (serve_all step ds server).1) arrivals
      → Tracks processed node
      → (let (node', frames) = receive_all arrivals node in
          (ids (serve_all step ds server).1 ≡ asked ds)
          × (frames ≡ consecutive processed node.expected_seq_id (length frames))
          × (node'.expected_seq_id ≡ ahead node.expected_seq_id (length frames)))
  processed_in_order ds arrivals server node h came t =
      let (frames, expected) =
        delivered_in_order processed arrivals node t
          (find-All (serve_all-Honest ds server h) came) in
      (serve_all-ids ds server, frames, expected)
