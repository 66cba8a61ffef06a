-- ===== src/Links/Transport.antt =====
-- Messages of the protocol over a TCP link: src/links/link_entry.rs on top of
-- src/link_impls/tcp_link.rs.
use link_set.Prelude.{
  ℕ, suc, Bool, if◌then◌else◌, append-nil, ◌≤◌, ◌≡◌, refl, ap, ◌∙◌, List, [], ◌∷◌, ◌++◌, map,
  length, false, All,
}
use link_set.Protocol.{LinkProtocol, LinkSetResult, ok, err, link_error, serialize}
use link_set.Protocol.RoundTrip.{IsWire}
use link_set.Links.Reader.{Forwarded, reader_task, tagged, reader_task-serialize}
use link_set.Tcp.{TcpLink, SocketOps, Incoming, read_task}
use link_set.Tcp.Frames.{IsIncoming, ahead}
use link_set.Tcp.Reading.{IsChunk, Writes, Sends, read_task-send}

length-map : {A B : Type 0} (f : A → B) (xs : List A) → length (map f xs) ≡ length xs
length-map f [] = refl
length-map f (x ∷ xs) = ap suc (length-map f xs)

map-map :
    {A B C : Type 0} (g : B → C) (f : A → B) (xs : List A)
    → map g (map f xs) ≡ map (λ x. g (f x)) xs
map-map g f [] = refl
map-map g f (x ∷ xs) = ap (λ ys. g (f x) ∷ ys) (map-map g f xs)

-- What `read` of the taken reader gives: the chunks, and an error once the task behind it has ended.
abbrev pub reads_of : List (List ℕ) × Bool → List (LinkSetResult (List ℕ))
reads_of (chunks, ended) = map ok chunks ++ (if ended then err link_error ∷ [] else [])

-- The task of the entry on top of the task behind the link's reader.
abbrev pub over_tcp : ℕ → ℕ → Incoming → Forwarded
over_tcp id room i = reader_task id room (reads_of (read_task room i))

module _ {W : Type 0} ⦃o : SocketOps W⦄ where
  -- Messages that fit the wire and a chunk are sent with success over a fresh TCP link, and the
  -- reader at the other end has ahead what was written, in whatever reads: if the channels there
  -- take so many, each of them is handed on, in order, under the id of the link there, and the
  -- tasks go on.
  pub over_tcp-send :
      (written : W → List ℕ) (protos : List LinkProtocol) (id room : ℕ) (l l' : TcpLink W)
      (i : Incoming)
      → Writes W o written
      → written l.socket_writer ≡ []
      → Sends (map serialize protos) l l'
      → All IsWire protos
      → All IsChunk (map serialize protos)
      → length protos ≤ room
      → IsIncoming i
      → ahead i ≡ written l'.socket_writer
      → over_tcp id room i ≡ (map (tagged id) protos, false)
  over_tcp-send written protos id room l l' i law fresh sent fits small enough fine same =
      let arrive =
        read_task-send written (map serialize protos) room l l' i law fresh sent small
          (rw (length-map serialize protos) enough) fine same in
      let ready = append-nil (map ok (map serialize protos)) ∙ map-map ok serialize protos in
      rw (arrive, ready) (reader_task-serialize id room protos fits enough)
