-- ===== src/Folder/Watching.antt =====
-- What the thread `start_directory_watcher_thread` of src/client/client.c sends for a buffer of events.
use inf01151_trabalho_final.Base.{
  ℕ, ◌+◌, ◌^◌, ◌<◌, ◌≡◌, refl, ap, sym, ◌∙◌, Bool, true, false, Option, none, some, List, [], ◌∷◌,
  ◌++◌, append_assoc, append-nil, arith, Bytes, length,
}
use inf01151_trabalho_final.Files.{FileSystem, content_of, create_filepath}
use inf01151_trabalho_final.Packet.{packet_delete, image}
use inf01151_trabalho_final.Packet.Framing.{packet_of}
use inf01151_trabalho_final.Transfer.{send_file}
use inf01151_trabalho_final.Transfer.Sending.{
  open_link, send_new_lem, Fits, transfer_of, send_file_lem,
}
use inf01151_trabalho_final.Client.{delete}
use inf01151_trabalho_final.Folder.{
  InotifyEvent, event_size, is_written, is_deleted, Watcher, watch_written, watch_deleted,
  watch_events,
}

module _ (sync_dir_path : Bytes) where
  -- The bytes that the events of a buffer, from the offset `i` on, stand for, and the seconds that are
  -- slept for them: a file that was written and can be read is sent after a second, one that is gone
  -- again is not sent, and a deletion is sent after as many seconds as its offset.
  pub data Watches : ℕ → List (InotifyEvent × FileSystem) → Bytes → ℕ → Type 0 where
    none_left : {i : ℕ} → Watches i [] [] 0
    ignored :
        {i : ℕ} {events : List (InotifyEvent × FileSystem)} {bytes : Bytes} {seconds : ℕ}
        (e : InotifyEvent) (fs : FileSystem)
        → is_written e.mask ≡ false
        → is_deleted e.mask ≡ false
        → Watches (i + event_size + e.len) events bytes seconds
        → Watches i ((e, fs) ∷ events) bytes seconds
    written :
        {i : ℕ} {events : List (InotifyEvent × FileSystem)} {bytes : Bytes} {seconds : ℕ}
        (e : InotifyEvent) (fs : FileSystem) (path content : Bytes)
        → is_written e.mask ≡ true
        → is_deleted e.mask ≡ false
        → create_filepath sync_dir_path e.name ≡ some path
        → content_of fs path ≡ some content
        → Fits e.name content
        → Watches (i + event_size + e.len) events bytes seconds
        → Watches i ((e, fs) ∷ events) (transfer_of e.name content ++ bytes) (1 + seconds)
    gone :
        {i : ℕ} {events : List (InotifyEvent × FileSystem)} {bytes : Bytes} {seconds : ℕ}
        (e : InotifyEvent) (fs : FileSystem) (path : Bytes)
        → is_written e.mask ≡ true
        → is_deleted e.mask ≡ false
        → create_filepath sync_dir_path e.name ≡ some path
        → content_of fs path ≡ none
        → Watches (i + event_size + e.len) events bytes seconds
        → Watches i ((e, fs) ∷ events) bytes (1 + seconds)
    deleted :
        {i : ℕ} {events : List (InotifyEvent × FileSystem)} {bytes : Bytes} {seconds : ℕ}
        (e : InotifyEvent) (fs : FileSystem)
        → is_written e.mask ≡ false
        → is_deleted e.mask ≡ true
        → length e.name < 2 ^ 16
        → Watches (i + event_size + e.len) events bytes seconds
        → Watches i
            ((e, fs) ∷ events)
            (image (packet_of packet_delete e.name) ++ bytes)
            (i + seconds)

  watch_step :
      (i : ℕ) (e : InotifyEvent) (fs : FileSystem) (events : List (InotifyEvent × FileSystem))
      (w w' : Watcher)
      → watch_written (is_written e.mask) sync_dir_path e fs w ≡ some w'
      → watch_events sync_dir_path i ((e, fs) ∷ events) w
        ≡ watch_events sync_dir_path
            (i + event_size + e.len)
            events
            (watch_deleted (is_deleted e.mask) i e w')
  unfolding watch_events
  watch_step i e fs events w w' h = rw (h, watch_events) refl

  abbrev watcher : Bytes → ℕ → Watcher
  watcher out slept = record { link = open_link out; slept = slept }

  module _ (e : InotifyEvent) (fs : FileSystem) (out : Bytes) (slept : ℕ) where
    written_lem :
        (path content : Bytes)
        → create_filepath sync_dir_path e.name ≡ some path
        → content_of fs path ≡ some content
        → Fits e.name content
        → watch_written true sync_dir_path e fs (watcher out slept)
          ≡ some (watcher (out ++ transfer_of e.name content) (slept + 1))
    unfolding watch_written
    written_lem path content hp hc fits =
        rw (send_file_lem e.name sync_dir_path path content out fs hp hc fits, watch_written) refl

    gone_lem :
        (path : Bytes)
        → create_filepath sync_dir_path e.name ≡ some path
        → content_of fs path ≡ none
        → watch_written true sync_dir_path e fs (watcher out slept) ≡ some (watcher out (slept + 1))
    unfolding watch_written send_file
    gone_lem path hp hc = rw (unreadable, watch_written) refl
      where
        unreadable : send_file (open_link out) e.name sync_dir_path fs ≡ some (open_link out)
        unreadable = rw (hp, send_file) (rw hc refl)

    deleted_lem :
        (i : ℕ)
        → length e.name < 2 ^ 16
        → watch_deleted true i e (watcher out slept)
          ≡ watcher (out ++ image (packet_of packet_delete e.name)) (slept + i)
    unfolding watch_deleted delete
    deleted_lem i fits =
        ap (λ r. record { link = r.1; slept = slept + i })
          (send_new_lem out packet_delete e.name fits)

  abbrev outcome : Bytes → ℕ → Option Watcher
  outcome out slept = some (watcher out slept)

  regroup :
      (out a b : Bytes) (slept x y : ℕ)
      → outcome ((out ++ a) ++ b) (slept + x + y) ≡ outcome (out ++ (a ++ b)) (slept + (x + y))
  regroup out a b slept x y =
      ap (λ t. outcome t (slept + x + y)) (append_assoc out a b)
      ∙ ap (λ n. outcome (out ++ (a ++ b)) n) (omega arith)

  -- One event, of which it is known what it is.
  one_event :
      (i : ℕ) (e : InotifyEvent) (fs : FileSystem) (events : List (InotifyEvent × FileSystem))
      (w w' w'' : Watcher) (is_w is_d : Bool)
      → is_written e.mask ≡ is_w
      → is_deleted e.mask ≡ is_d
      → watch_written is_w sync_dir_path e fs w ≡ some w'
      → watch_deleted is_d i e w' ≡ w''
      → watch_events sync_dir_path i ((e, fs) ∷ events) w
        ≡ watch_events sync_dir_path (i + event_size + e.len) events w''
  one_event i e fs events w w' w'' is_w is_d ew ed hw hd =
      watch_step i e fs events w w' (ap (λ b. watch_written b sync_dir_path e fs w) ew ∙ hw)
      ∙ ap (watch_events sync_dir_path (i + event_size + e.len) events)
          (ap (λ b. watch_deleted b i e w') ed ∙ hd)

  -- For the events of a buffer the watcher sends, in their order, the transfer of each file that was
  -- written and can still be read and the packet of each deletion, and nothing else, over a connection
  -- that takes every packet. It sleeps one second for each file and, for each deletion, as many
  -- seconds as the deletion's offset in the buffer.
  pub watch_events_lem :
      {i : ℕ} {events : List (InotifyEvent × FileSystem)} {bytes : Bytes} {seconds : ℕ}
      (out : Bytes) (slept : ℕ)
      → Watches i events bytes seconds
      → watch_events sync_dir_path i events (record { link = open_link out; slept = slept })
        ≡ some (record { link = open_link (out ++ bytes); slept = slept + seconds })
  unfolding watch_events watch_deleted watch_written
  watch_events_lem out slept none_left =
      ap (λ t. outcome t slept) (sym (append-nil out)) ∙ ap (outcome (out ++ [])) (omega arith)
  watch_events_lem {i} out slept (ignored {events = events} e fs nw nd rest) =
      one_event i e fs events (watcher out slept) _ _ false false nw nd refl refl
      ∙ watch_events_lem out slept rest
  watch_events_lem {i} out slept
        (written {events = events} {bytes = bytes} {seconds = seconds} e fs path content w nd hp hc
          fits rest) =
      let sent = transfer_of e.name content in
      one_event i e fs events (watcher out slept) _ _ true false w nd
        (written_lem e fs out slept path content hp hc fits) refl
      ∙ watch_events_lem (out ++ sent) (slept + 1) rest
      ∙ regroup out sent bytes slept 1 seconds
  watch_events_lem {i} out slept
        (gone {events = events} {bytes = bytes} {seconds = seconds} e fs path w nd hp hc rest) =
      one_event i e fs events (watcher out slept) _ _ true false w nd
        (gone_lem e fs out slept path hp hc) refl
      ∙ watch_events_lem out (slept + 1) rest
      ∙ ap (outcome (out ++ bytes)) (omega arith)
  watch_events_lem {i} out slept
        (deleted {events = events} {bytes = bytes} {seconds = seconds} e fs nw d fits rest) =
      let sent = image (packet_of packet_delete e.name) in
      one_event i e fs events (watcher out slept) (watcher out slept) _ false true nw d refl
        (deleted_lem e fs out slept i fits)
      ∙ watch_events_lem (out ++ sent) (slept + i) rest
      ∙ regroup out sent bytes slept i seconds
