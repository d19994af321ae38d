-- ===== src/Websocket/Manager/Keys.antt =====
-- websocket/manager.go: the keys of pending acknowledgements tell methods and identities apart.
use Prim.Native.Char.{Char, code}
use Prim.Native.String.{◌++◌ as ◌++ₛ◌}
use Prim.Native.String.append.{nil, cons}
use hypersdk_go.Prelude.{ℕ, ◌≡◌, ◌≢◌, ap, String, string_eq, arith}
use hypersdk_go.Websocket.Manager.{pending_ack_key}

abbrev tail : String → String
tail String.[] = String.[]
tail (String.◌∷◌ c s) = s

abbrev first_code : String → ℕ
first_code String.[] = 0
first_code (String.◌∷◌ c s) = code c

behind : (c : Char) (s t : String) → (String.◌∷◌ c s) ++ₛ t ≡ String.◌∷◌ c (s ++ₛ t)
behind c s t = cons c s t

same_suffix : (p s t : String) → p ++ₛ s ≡ p ++ₛ t → s ≡ t
same_suffix String.[] s t h = rw (nil s, nil t) at h
same_suffix (String.◌∷◌ c p) s t h =
    same_suffix p s t (ap tail (rw (behind c p s, behind c p t) at h))

pub pending_ack_key-injective : (m i j : String) → pending_ack_key m i ≡ pending_ack_key m j → i ≡ j
unfolding pending_ack_key
pending_ack_key-injective m i j h = same_suffix ":" i j (same_suffix m (":" ++ₛ i) (":" ++ₛ j) h)

pub subscribe_key-unsubscribe_key :
    (i j : String) → pending_ack_key "unsubscribe" i ≢ pending_ack_key "subscribe" j
unfolding pending_ack_key
subscribe_key-unsubscribe_key i j h = omega (
  arith,
  ap first_code (behind "u" "nsubscribe" (":" ++ₛ i)),
  ap first_code (behind "s" "ubscribe" (":" ++ₛ j)),
  ap first_code h,
)
