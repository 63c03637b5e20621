-- ===== src/AppLog/Print.antt =====
-- `AppLog_Printf` of App/usb_mux_dev/app_log.c and the invariant of the ring.
use ch32v20x_usb_mux_uart_bl.Prelude.{
  ℕ, ◌<◌, ◌≡◌, ◌∙◌, List, [], ◌∷◌, arith, length, length-set, take, ◌==◌, leb, Rc, ok, err,
  if-cases,
}
use ch32v20x_usb_mux_uart_bl.AppLog.{
  LogCtx, next_index, push_byte, push_line, printf, line_size, init,
}
use ch32v20x_usb_mux_uart_bl.AppLog.Bounds.{IsLog}

next_index-in : (i : ℕ) → next_index i < 2048
unfolding next_index
next_index-in i = ground arith

push_byte-IsLog : (x : ℕ) (c : LogCtx) → IsLog c → IsLog (push_byte x c).1
unfolding push_byte
push_byte-IsLog x c v =
    if-cases (λ (r : Rc × LogCtx). IsLog r.1) (next_index c.head == c.tail) _ _
      (λ _. record { sized = v.sized; head_in = v.head_in; tail_in = v.tail_in })
      (λ _. record {
        sized = length-set c.buf c.head x ∙ v.sized;
        head_in = next_index-in c.head;
        tail_in = v.tail_in;
      })

push_line-IsLog : (xs : List ℕ) (c : LogCtx) → IsLog c → IsLog (push_line xs c)
unfolding push_line
push_line-IsLog [] c v = v
push_line-IsLog (x ∷ xs) c v =
    after (push_byte x c) (push_byte-IsLog x c v) (λ c' v'. push_line-IsLog xs c' v')
  where
    after :
        (r : Rc × LogCtx)
        → IsLog r.1
        → ((c' : LogCtx) → IsLog c' → IsLog (push_line xs c'))
        → IsLog (elim r.0 [ ok ↦ push_line xs r.1 | err ↦ r.1 ])
    after (ok, c') v' rest = rest c' v'
    after (err, c') v' rest = v'

pub printf-IsLog : (text : List ℕ) (c : LogCtx) → IsLog c → IsLog (printf text c)
unfolding printf
printf-IsLog text c v =
    if-cases IsLog (length text == 0) _ _ (λ _. v)
      (λ _.
        if-cases IsLog (leb line_size (length text)) _ _
          (λ _.
            push_line-IsLog (take 159 text) _
              (record { sized = v.sized; head_in = v.head_in; tail_in = v.tail_in }))
          (λ _. push_line-IsLog text c v))

pub init-IsLog : (c : LogCtx) → length c.buf ≡ 2048 → IsLog (init c)
unfolding init
init-IsLog c e = record { sized = e; head_in = omega arith; tail_in = omega arith }
