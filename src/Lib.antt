-- ===== src/Lib.antt =====
-- Verification of the overlay binary: a process that takes drawables from plugins over TCP and
-- draws them over a game's window.
--
-- The parts of the program, and how they work together. A plugin sends messages `length#body` to
-- the port. `TcpSession` (cpp/tcp_session.hpp) cuts them out of the stream and parses each body as
-- JSON into drawables (`parseJsonString`, cpp/drawables.h). `SvgBuilder` (cpp/svgbuilder.cpp)
-- converts texts and shapes to SVG; it divides a text by the class of its symbols
-- (cpp/common/unicode_splitter.hpp) and puts emojis in as base64 images (cpp/emoji_renderer). The
-- session merges the result into the map of all drawables, marks those that need no new drawing,
-- and takes out duplicates. The main loop (cpp/main.cpp) runs the commands among the drawables,
-- takes out those that have expired, and redraws the window.
--
-- The files:
-- - Base: the names and lemmas that the others share. Base/Tests has the Boolean tests and
--   `if`, Base/Lists lists over native numbers, Base/Results exceptions (`Result`) and runs that
--   may leave defined C++ or end the process (`Outcome`), Base/Int `int`, Base/Text `std::string`
--   as bytes, Base/Map `std::map<std::string, V>` as a list sorted by its keys, Base/Bits bit
--   operations.
-- - Json: the calls of nlohmann::json, a parameter of the model.
-- - Draw: `drawitem_t` and its parts, lifetimes, and `isEqualStoredData`; Draw/Equality on that;
--   Draw/Parse `parseJsonString`, with Fields and Stored on what it stores; Draw/Vector markers and
--   `ForEachVectorPointsPair`, with Polyline.
-- - Strutils: cpp/common/strutils.h, with Search, Trim and Tokens.
-- - Unicode: the symbol iterator and `makeSpans`, with Runs, Spans and Utf8.
-- - Emoji: cpp/emoji_renderer. Base64 is `encodeBase64`, with Groups and RoundTrip; Request the
--   requests with their order; Float the float arithmetic of the scaling, with Bounds; Bitmap the pixels, with
--   Pixels, Loops, Copied, Inside, Scaled and Whole; Faces the state, `getFace` and the choice of a size, with Best;
--   Renderer `renderToPng`, with Cache, Calls, Fitted and Finish; Measure `computeWidth`. FreeType has the
--   records of the libraries that these call.
-- - Svg: Escape is `escape_for_svg`, Float the float arithmetic, TextTags `TextToSvgConverter`, Shape
--   `makeSvgShape`, Build `BuildSvgTask`, with Built, Corner and Faults.
-- - Session/Framing: `readHeader` and `readBody` as a step relation, with Number, Cut, Stream and
--   Progress. Session/Payload: `process_payload`, with Marks, Board,
--   Remarked, Finish and Faults.
--   Session/Duplicates: `removeRenamedDuplicates`, with Search, Kept, Order, Distinct and Faults.
-- - Main: a round of the loop of `main`, with Left, Screen and Runs; Start has the arguments.
-- - Colors: cpp/x11_colors_mgr.h, with Hex on the codes of colors and Pixel on components, pixels
--   and the cache.
-- - Output: cpp/xoverlayoutput.cpp. Drawing is `drawAsSvg` and what it calls, Window the rest;
--   ManagedId is cpp/common/managed_id.hpp, Fonts cpp/luna_default_fonts.h and
--   cpp/common/font_size.hpp. Live has the resources that a list of requests leaves; Sound, Kept,
--   Freed, Version and Faults are on the drawing. Frame has the drawables of cpp/main.cpp with
--   their pixmaps, as events; Held, Accounted, Redrawn and Run are on what these keep on the
--   server.
-- - Tests: concrete inputs.
--
-- How the code is modelled. A `std::string` is the list of its bytes. A map is a list sorted by
-- key, so that iterating over it is recursion. An `int` is an integer; where the source computes
-- with `int` or `unsigned` and the result can leave the range, the wrap is written out, in
-- `wrap_int` and by `% 2 ^ 32`. A clock is a function from the number of the reading to
-- nanoseconds. A call of `canContinue` is answered by a function from the number of the call.
-- Output to streams for logging is left out.
--
-- Fuel. The loops of `makeSpans`, of the symbols of a text, and of the images of a span run on the
-- length of the text: each round moves the cursor by a byte at least (Unicode/Runs). The loop of
-- `removeRenamedDuplicates` runs on the number of the entries: each round takes one off. The
-- rounding of a float takes 64 rounds in Svg/Float, enough for numbers below 2 ^ 88, and 320 in
-- Emoji/Float, enough for all of single precision. `unescape` and the digits of
-- a number run on the length and on the number.
--
-- Parameters. `Json` stands for the JSON library, `Renderer` for the emoji renderer, which draws with
-- FreeType, and `alloc` for XAllocColor. The emoji renderer itself has the records `FreeType`, whose
-- faces keep a state, `FontConfig` and `Png`. The output has `Server` for Xlib and `Lunasvg`; the
-- theorems on its resources suppose that the server gives new ids (`GivesNewIds`), as Xlib
-- documents.
--
-- The closure that `drawAsSvg` keeps in a drawable is the pixmap with its size. It holds a reference
-- to the drawable for the place; the drawables stay where they are in the map, so the model takes the
-- place from the drawable drawn.
--
-- Not modelled: the creation of the window, the accept loop of the server, thread start and stop,
-- signals, and the plugin in Python. `atoi` is undefined for what is no `int`, as the C standard
-- has it. The conversion of a float above the range of `int` is undefined in C++ and is not told
-- apart. A signed overflow is modelled as the wrap that compilers make of it, in the markers, the
-- frame of a vector, and the accumulator of `encodeBase64`. An access past the end of a picture is
-- `none`. What is undefined otherwise is `undefined`, or, in a call that may throw,
-- `undefined_behavior`, which no handler catches: such is the constant `operator[]` of a JSON
-- object without the key.
pub mod Base
pub mod Json
pub mod Draw
pub mod Strutils
pub mod Unicode
pub mod Emoji
pub mod Svg
pub mod Session
pub mod Main
pub mod Colors
pub mod Output
pub mod Tests
