-- ===== src/Callable.antt =====
-- framework/thread_pool/callable_function.hpp: `CallableFunction`, a call that can be handed on; and
-- framework/reactor/unused/function.hpp: `Function`, the same with a result. The argument is kept as a copy,
-- and the object, if there is one, as its address. What a call does to the rest of the program is a
-- function on that, W, and may throw.
use privately_distributed_cl.Common.{ℕ, Outcome}

-- `Ifunction`: a free function with its argument, or a member function with its object too.
pub data Ifunction (W : Type 0) : Type 1 where
  ifunction_free : {Args : Type 0} → (Args → W → Outcome W) → Args → Ifunction W
  ifunction_object : {Args : Type 0} → (ℕ → Args → W → Outcome W) → ℕ → Args → Ifunction W

pub record CallableFunction (W : Type 0) : Type 1 where
  pub function : Ifunction W

module _ {W Args : Type 0} where
  -- The two constructors.
  unfoldable pub callable_function : (Args → W → Outcome W) → Args → CallableFunction W
  callable_function function argument = record { function = ifunction_free function argument }

  unfoldable pub callable_member : (ℕ → Args → W → Outcome W) → ℕ → Args → CallableFunction W
  callable_member function object argument = record {
    function = ifunction_object function object argument;
  }

module _ {W : Type 0} where
  -- The two `Invoke`.
  unfoldable pub invoke : Ifunction W → W → Outcome W
  invoke (ifunction_free function argument) w = function argument w
  invoke (ifunction_object function object argument) w = function object argument w

  -- `operator()`.
  unfoldable pub call : CallableFunction W → W → Outcome W
  call c w = invoke c.function w

-- `IFunction`, with `FreeFunction` and `MemberFunction`.
pub data IFunction (W Ret : Type 0) : Type 1 where
  free_function : {Arg : Type 0} → (Arg → W → Outcome (Ret × W)) → Arg → IFunction W Ret
  member_function : {Arg : Type 0} → (ℕ → Arg → W → Outcome (Ret × W)) → ℕ → Arg → IFunction W Ret

pub record Function (W Ret : Type 0) : Type 1 where
  pub shared_ptr : IFunction W Ret

module _ {W Ret Arg : Type 0} where
  unfoldable pub function_free : (Arg → W → Outcome (Ret × W)) → Arg → Function W Ret
  function_free func_ptr arg = record { shared_ptr = free_function func_ptr arg }

  unfoldable pub function_member : (ℕ → Arg → W → Outcome (Ret × W)) → ℕ → Arg → Function W Ret
  function_member func_ptr obj arg = record { shared_ptr = member_function func_ptr obj arg }

module _ {W Ret : Type 0} where
  -- `operator()` of the two.
  unfoldable pub apply : IFunction W Ret → W → Outcome (Ret × W)
  apply (free_function func_ptr arg) w = func_ptr arg w
  apply (member_function func_ptr obj arg) w = func_ptr obj arg w

  unfoldable pub call_function : Function W Ret → W → Outcome (Ret × W)
  call_function f w = apply f.shared_ptr w
