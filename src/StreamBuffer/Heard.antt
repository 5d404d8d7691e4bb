-- ===== src/StreamBuffer/Heard.antt =====
-- What is in the buffer, against all that has been read so far.
use fleetcore.Prelude.{
  ℕ, ◌≡◌, sym, ap, ◌∙◌, [], ◌++◌, append-nil, subst, append_assoc, Bool-cases, inl, inr, leb,
  length, take, drop,
}
use fleetcore.Bytes.{Bytes, AreBytes}
use fleetcore.Bytes.Order.{AreBytes-append, AreBytes-drop}
use fleetcore.StreamBuffer.{StreamBuffer, consume}
use fleetcore.TcpServer.Send.{take-drop}

-- What is in the buffer is the end of what was heard.
abbrev pub Ends : Bytes → Bytes → Type 0
Ends heard left = (before : Bytes) × (heard ≡ before ++ left)

pub Ends-drop : (heard : Bytes) (len : ℕ) (buf : Bytes) → Ends heard buf → Ends heard (drop len buf)
Ends-drop heard len buf (before, is) = (
  before ++ take len buf,
  is
      ∙ ap (◌++◌ before) (sym (take-drop len buf))
      ∙ sym (append_assoc before (take len buf) (drop len buf)),
)

-- A message stands, byte for byte and in one piece, in what was heard.
abbrev pub StandsIn : Bytes → Bytes → Type 0
StandsIn wire heard = (before : Bytes) × (after : Bytes) × (heard ≡ before ++ (wire ++ after))

pub StandsIn-append :
    (wire heard chunk : Bytes) → StandsIn wire heard → StandsIn wire (heard ++ chunk)
StandsIn-append wire heard chunk (before, after, is) = (
  before,
  after ++ chunk,
  ap (λ (b : Bytes). b ++ chunk) is
      ∙ append_assoc before (wire ++ after) chunk
      ∙ ap (◌++◌ before) (append_assoc wire after chunk),
)

pub record Rest (heard left : Bytes) : Type 0 where
  pub are_bytes : AreBytes left
  pub ends : Ends heard left

pub Rest-nothing : (heard : Bytes) → Rest heard []
Rest-nothing heard = record { are_bytes = tt; ends = (heard, sym (append-nil heard)) }

pub Rest-append :
    (heard left chunk : Bytes)
    → AreBytes chunk
    → Rest heard left
    → Rest (heard ++ chunk) (left ++ chunk)
Rest-append heard left chunk p v =
    let (before, is) = v.ends in
    record {
      are_bytes = AreBytes-append left chunk v.are_bytes p;
      ends = (before, ap (λ (b : Bytes). b ++ chunk) is ∙ append_assoc before left chunk);
    }

pub Rest-consume :
    (heard : Bytes) (len : ℕ) (b : StreamBuffer)
    → Rest heard b.bytes
    → Rest heard (consume len b).bytes
unfolding consume
Rest-consume heard len b v = elim (Bool-cases (leb (length b.bytes) len)) [
  | inl all ↦ rw all (Rest-nothing heard)
  | inr some_left ↦ rw some_left (record {
    are_bytes = AreBytes-drop len b.bytes v.are_bytes;
    ends = Ends-drop heard len b.bytes v.ends;
  })
]

-- What stands at the front of the buffer stands in what was heard.
pub StandsIn-front :
    (wire rest heard left : Bytes) → Rest heard left → left ≡ wire ++ rest → StandsIn wire heard
StandsIn-front wire rest heard left v is =
    let (before, split) = v.ends in (before, rest, split ∙ ap (◌++◌ before) is)

-- Nothing more is heard.
pub nothing_heard : (P : Bytes → Type 0) (heard : Bytes) → P heard → P (heard ++ [])
nothing_heard P heard v = subst P (sym (append-nil heard)) v
