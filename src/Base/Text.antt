-- ===== src/Base/Text.antt =====
-- C strings as lists of bytes without the final NUL, and the functions of <string.h>, <stdlib.h>
-- and <stdio.h> that the program calls on them. The buffers' sizes are not modelled.
mod Defs
mod Laws
unfoldable pub use Defs.*
pub use Laws.*
